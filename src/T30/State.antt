-- ===== src/T30/State.antt =====
-- `struct nf_t30`, in groups, and what lies outside the engine: the modems allowed, the backend's
-- answers, the readers and writers of documents. The backend's functions and the hooks of the
-- application are calls, logged in `calls`, the newest first; they do not act on the engine until
-- they have returned. The log, the test hooks' environment variables and the file handles are left
-- out.
use nospandsp_fax.Common.{ℕ, ◌*◌, Bool, Option, List, ◌∷◌}
use nospandsp_fax.Common.{bit_or, if◌then◌else◌}
use nospandsp_fax.T4.Encode.{Compression}
use nospandsp_fax.T30.Tables.{Modem, Res}

-- The substates of a call. `c_` are the caller's and `a_` the answerer's.
pub data Substate : Type 0 where
  st_init c_wait_v8 c_wait_dis c_send_dcs c_dcs_pause c_send_tcf c_wait_cfr c_send_image : Substate
  c_send_post c_wait_mcf c_send_dcn c_send_dtc c_send_ecm c_send_pps c_wait_pps_resp : Substate
  c_send_ctc c_wait_ctr c_send_eor c_wait_eor c_wait_v34 a_send_v8 a_send_ced a_send_dis : Substate
  a_wait_dcs a_recv_tcf a_send_cfr a_send_ftt a_recv_image a_wait_post a_send_mcf : Substate
  a_send_rtn a_wait_dcn a_recv_ecm a_wait_pps a_send_ppr a_send_ecm_mcf a_send_ctr : Substate
  a_send_err a_reack a_wait_v34 st_done : Substate

-- PK_*
pub data Kind : Type 0 where
  bilevel color gray file : Kind

-- The NF_T30_* results.
pub data Outcome : Type 0 where
  ok err_general err_incompat err_timeout err_file : Outcome

-- The NF_STATUS_* events that the engine reads.
pub data Status : Type 0 where
  carrier_down training_succeeded training_failed send_step_complete other : Status

-- The calls of the backend (`nf_modem_ops_t`) and of the phase-E hook.
pub data Call : Type 0 where
  set_tx_type : Modem → ℕ → ℕ → Bool → Call
  set_rx_type : Modem → ℕ → ℕ → Bool → Call
  send_hdlc : List ℕ → Call
  begin_hdlc_stream : Call
  phase_e : Outcome → Call

-- A document that was received.
pub data Written : Type 0 where
  bilevel_page : ℕ → List (List ℕ) → Written
  jpeg_page : Bool → ℕ → ℕ → Written
  file_contents : List ℕ → Written

-- What the application has set before the call.
pub record Config : Type 0 where
  pub calling : Bool
  pub v34_enable : Bool
  pub require_v34 : Bool
  pub poll_serve : Bool
  pub poll_receive : Bool
  pub tx_is_color : Bool
  pub tx_is_gray : Bool
  pub tx_is_file : Bool
  pub color_capable : Bool
  pub file_capable : Bool
  pub supported_res : ℕ
  pub ident : List ℕ
  pub drop_above_rate : ℕ
  pub drop_tx : List ℕ
  pub drop_rx : List ℕ

-- What the two ends have agreed on.
pub record Negotiated : Type 0 where
  pub fallback : ℕ
  pub modem : Modem
  pub bit_rate : ℕ
  pub encoding : Compression
  pub x_res : ℕ
  pub y_res : ℕ
  pub image_width : ℕ
  pub nf_res : Res
  pub kind : Kind
  pub ecm : Bool

-- The document to send: `enc` is the current page, encoded.
pub record Document : Type 0 where
  pub pages_total : ℕ
  pub cur_page : ℕ
  pub enc : List ℕ
  pub enc_bit : ℕ
  pub last_post_fcf : ℕ

pub record Retries : Type 0 where
  pub post_retries : ℕ
  pub dis_retries : ℕ
  pub rtn_count : ℕ
  pub ppr_count : ℕ
  pub ctc_retries : ℕ

-- The sender's side of error correction: of the frames of a block, `send` marks those to send.
pub record EcmTx : Type 0 where
  pub at_page_end : Bool
  pub next_tx_step : ℕ
  pub tx_base : ℕ
  pub send : List Bool
  pub cursor : ℕ
  pub rcp_left : ℕ
  pub burst : ℕ
  pub dropped_tx : List Bool

-- The receiver's side: `slots` holds `ecm_data` up to `ecm_len`, and none for a length of -1.
-- `acked` is the page and the block of the last acknowledgment, none for -1. `page` is the buffer
-- up to `rx_ecm_len`.
pub record EcmRx : Type 0 where
  pub slots : List (Option (List ℕ))
  pub acked : Option (ℕ × ℕ)
  pub last_resp_fcf : ℕ
  pub reack_return : Substate
  pub last_pps_fcf2 : ℕ
  pub page : List ℕ
  pub dropped_rx : List Bool

-- The training check and the image bits of a page without error correction.
pub record Reception : Type 0 where
  pub tcf_left : ℕ
  pub tcf_zeros : ℕ
  pub tcf_most : ℕ
  pub rx_page_bad : Bool
  pub rx_flip_n : ℕ
  pub rx_flip_ctr : ℕ
  pub rx_bits : List ℕ
  pub dec_width : ℕ
  pub dec_encoding : Compression

-- `nf_t30_stats_t`, less what repeats a field of the engine.
pub record Stats : Type 0 where
  pub pages_tx : ℕ
  pub pages_rx : ℕ
  pub stat_rate : ℕ
  pub width : ℕ
  pub rows : ℕ

pub record T30 : Type 0 where
  pub config : Config
  pub substate : Substate
  pub finished : Bool
  pub result : Outcome
  pub far_ident : List ℕ
  pub far_dis : List ℕ
  pub dis_received : Bool
  pub cburst : Option (List (List ℕ))
  pub neg : Negotiated
  pub doc : Document
  pub tries : Retries
  pub v34 : Bool
  pub want_ecm : Bool
  pub ecm_block : ℕ
  pub ecm_frames : Option ℕ
  pub tx : EcmTx
  pub rx : EcmRx
  pub recv : Reception
  pub stats : Stats
  pub timeout : ℕ
  pub calls : List Call
  pub written : List Written

-- A page of a TIFF file: its width, its resolution down in dots per inch, rounded up, and its rows
-- as octets in which 1 is black.
pub record TiffPage : Type 0 where
  pub tiff_width : ℕ
  pub ydpi : ℕ
  pub tiff_rows : List (List ℕ)

-- What is outside. `v34_bit_rate` is 0 where the backend knows no rate; `v34_negotiated` is the
-- V34HDX bit of the modulations that V.8 settled on; `phase_b` may choose another document.
pub record Outside : Type 0 where
  pub modem_allowed : Modem → Bool
  pub audio : Bool
  pub v34_bit_rate : ℕ
  pub v34_negotiated : Bool
  pub max_frames : ℕ
  pub phase_b : T30 → Document × Negotiated
  pub read_page : ℕ → Option TiffPage
  pub read_jpeg : Bool → ℕ → Option (List ℕ × ℕ × ℕ)
  pub read_file : Option (List ℕ × List ℕ)
  pub jpeg_decode : Bool → List ℕ → Option (ℕ × ℕ)

-- A frame code with the X bit of the station.
abbrev pub with_x : Bool → ℕ → ℕ
with_x x fcf = bit_or fcf (if x then 1 else 0)

abbrev pub call : T30 → Call → T30
call s c = record s { calls = c ∷ s.calls }

-- `arm_timeout`, in samples, and `disarm_timeout`
abbrev pub arm_timeout : T30 → ℕ → T30
arm_timeout s ms = record s { timeout = ms * 8 }

abbrev pub disarm_timeout : T30 → T30
disarm_timeout s = record s { timeout = 0 }

abbrev pub go : T30 → Substate → T30
go s next = record s { substate = next }
