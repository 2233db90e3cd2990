-- ===== src/T38/State.antt =====
-- `struct nf_t38`, the world it acts in, and the interface of the T.30 engine above it.
-- The engine may call back into the backend from every callback, so a callback takes the whole
-- world and gives it back. A NULL callback is the one that changes nothing (and has no frame and
-- no bit to give). The datagrams handed to `send` are appended to `sent`.
use nospandsp_fax.Common.{ℕ, Bool, Option, List}
use nospandsp_fax.Udptl.Types.{Udptl}

-- The tx burst phases.
pub data Phase : Type 0 where
  idle ind ind_wait hdlc_data hdlc_fcs hdlc_drain hdlc_end : Phase
  nonecm nonecm_trail nonecm_end tone_wait pause_wait complete : Phase

-- TX_FOLLOW_*: what follows the indicator of a burst.
pub data Follow : Type 0 where
  tone nothing image hdlc : Follow

pub record T38 : Type 0 where
  pub udptl : Udptl
  pub tx_phase : Phase
  pub tx_next_phase : Phase
  pub tx_ind : ℕ
  pub tx_ind_left : ℕ
  pub tx_dt : ℕ
  pub tx_bit_rate : ℕ
  pub red_ls : ℕ
  pub red_hs : ℕ
  pub tx_follow : Follow
  pub tx_is_stream : Bool
  pub tx_wait_ms : ℕ
  pub tx_frame : List ℕ
  pub tx_frame_off : ℕ
  pub tx_have_frame : Bool
  pub tx_trailer : ℕ
  pub tx_burst_octets : ℕ
  pub tx_burst_ms : ℕ
  pub tx_suppress : Bool
  pub mcf_drop : ℕ
  pub rx_hdlc : List ℕ
  pub rx_carrier : Bool
  pub rx_is_fast : Bool

-- The `NF_STATUS_*` codes that the backend reports.
pub data Status : Type 0 where
  carrier_up carrier_down training_succeeded send_step_complete : Status

pub record World (U : Type 0) : Type 0 where
  pub t38 : T38
  pub user : U
  pub sent : List (List ℕ)

-- `nf_fax_iface_t`
pub record Iface (U : Type 0) : Type 0 where
  pub hdlc_accept : List ℕ → Bool → World U → World U
  pub non_ecm_get_bit : World U → World U × Option ℕ
  pub non_ecm_put_bit : ℕ → World U → World U
  pub front_end_status : Status → World U → World U
  pub timer_update : ℕ → World U → World U
  pub hdlc_get_frame : World U → World U × List ℕ

-- The state set to `t`.
abbrev pub put : {U : Type 0} → World U → T38 → World U
put w t = record w { t38 = t }
