-- ===== src/T30/Calling.antt =====
-- What the sender of a document does with a frame, in `on_hdlc` of nf_t30.c: capabilities, the
-- choice of a rate, and the answers to a page or to a block of a page.
use nospandsp_fax.Common.{ℕ, ◌+◌, ◌*◌, ◌/◌, Bool, true, Option, none, some}
use nospandsp_fax.Common.{List, get_or, take, ltb, leb, ◌==◌, not, ◌&&◌, ◌||◌}
use nospandsp_fax.Common.{if◌then◌else◌}
use nospandsp_fax.T30.Fcf
use nospandsp_fax.T30.Tables.{
  v34, test_bit, fb, next_allowed_fb, parse_dis_pick_fallback, fine, ecm_octets,
}
use nospandsp_fax.T30.State.{
  T30, Outside, Kind, bilevel, color, gray, file, err_general, err_incompat, err_file, go,
  c_send_dcs, c_send_image, c_send_dcn, c_send_dtc, a_send_dis,
}
use nospandsp_fax.T30.Control.{
  tx_v21_frames, tx_image, send_ctrl_burst, finish, abort_dcn, send_dcn,
}
use nospandsp_fax.T30.Fields.{build_dis, build_dcs, encoding_of, capture_far_ident}
use nospandsp_fax.T30.EcmSend.{
  ecm_build_block, ecm_start_burst, ecm_send_pps, ecm_apply_ppr, ecm_send_ctc, ecm_send_eor,
}
use nospandsp_fax.T30.EcmReceive.{known_frames}
use nospandsp_fax.T30.Pages.{encode_current_page}

-- The frame has this code but for the X bit.
abbrev pub is_fcf : List ℕ → ℕ → Bool
is_fcf msg code = get_or msg 2 0 / 2 == code / 2

unfoldable pub send_dcs_then_tcf : T30 → T30
unfolding build_dcs send_ctrl_burst
send_dcs_then_tcf s = send_ctrl_burst s Fcf.tsi (build_dcs s) c_send_dcs

unfoldable pub answer_send_dis : Outside → T30 → T30
unfolding build_dis send_ctrl_burst
answer_send_dis o s = send_ctrl_burst s Fcf.csi (build_dis o.modem_allowed s) a_send_dis

unfoldable pub poll_send_dtc : Outside → T30 → T30
unfolding build_dis send_ctrl_burst
poll_send_dtc o s = send_ctrl_burst s Fcf.cig (build_dis o.modem_allowed s) c_send_dtc

unfoldable pub begin_image_tx : Outside → T30 → T30
unfolding encode_current_page finish
begin_image_tx o s = elim (encode_current_page o s) [
  | none ↦ finish o s err_file
  | some s' ↦ go (tx_image s' 1) c_send_image
]

-- `begin_ecm_image_tx`
unfoldable pub begin_ecm_image_tx : Outside → T30 → T30
unfolding encode_current_page finish ecm_build_block ecm_start_burst
begin_ecm_image_tx o s =
    let first : T30 → T30 = λ s'. record s' {
      ecm_block = 0;
      tx = record (s'.tx) {
        tx_base = 0;
        next_tx_step = if ltb (s'.doc.cur_page + 1) s'.doc.pages_total then Fcf.mps else Fcf.eop;
      };
    } in
    elim (encode_current_page o s) [
      | none ↦ finish o s err_file
      | some s' ↦ ecm_start_burst (ecm_build_block o (first s'))
    ]

-- A row of the fallback table, taken for the rest of the call.
unfoldable pub take_fallback : T30 → ℕ → T30
take_fallback s i = record s {
  neg = record (s.neg) { fallback = i; modem = (fb i).modem; bit_rate = (fb i).rate };
  stats = record (s.stats) { stat_rate = (fb i).rate };
}

-- The first lines of `recv_caps_begin_tx`: the far capabilities, and the hook that may choose
-- another document.
unfoldable pub take_caps : Outside → T30 → List ℕ → T30
take_caps o s msg =
    let s' = record s { far_dis = take 24 msg; dis_received = true } in
    record s' { doc = (o.phase_b s').0; neg = (o.phase_b s').1 }

-- The modem and error correction: fixed for V.34, else the fastest row that both ends know.
unfoldable pub choose_modem : Outside → T30 → Option T30
unfolding next_allowed_fb parse_dis_pick_fallback take_fallback
choose_modem o s =
    let best : Option ℕ = elim (parse_dis_pick_fallback (get_or s.far_dis 4 0)) [
      | none ↦ none
      | some i ↦ next_allowed_fb o.modem_allowed i
    ] in
    if s.v34
    then some (record s {
      neg = record (s.neg) { modem = v34; bit_rate = 24000; ecm = true };
      stats = record (s.stats) { stat_rate = 24000 };
    })
    else elim best [
      | none ↦ none
      | some i ↦
          let s' = take_fallback s i in
          some (record s' { neg = record (s'.neg) { ecm = s.want_ecm && test_bit s.far_dis 27 } })
    ]

abbrev pub with_kind : T30 → Kind → T30
with_kind s kind = record s { neg = record (s.neg) { kind = kind } }

abbrev pub with_jpeg : T30 → Kind → T30
with_jpeg s kind = record s {
  neg = record (s.neg) { kind = kind; nf_res = fine; x_res = 204; y_res = 196 };
}

-- The kind of the document, if the far end can receive it.
unfoldable pub choose_kind : T30 → Option T30
choose_kind s =
    let can : ℕ → Bool = λ n. test_bit s.far_dis n in
    if s.config.tx_is_color
    then (if s.neg.ecm && (can 68 && can 69) then some (with_jpeg s color) else none)
    else if s.config.tx_is_gray
    then (if s.neg.ecm && can 68 then some (with_jpeg s gray) else none)
    else if s.config.tx_is_file
    then (if s.neg.ecm && can 53 then some (with_kind s file) else none)
    else some (with_kind s bilevel)

abbrev pub with_encoding : T30 → T30
with_encoding s = record s { neg = record (s.neg) { encoding = encoding_of s.neg.ecm s.far_dis } }

-- `recv_caps_begin_tx`
unfoldable pub recv_caps_begin_tx : Outside → T30 → List ℕ → T30
unfolding finish take_caps choose_modem choose_kind send_dcs_then_tcf
recv_caps_begin_tx o s msg =
    let seen = record s { far_dis = take 24 msg; dis_received = true } in
    let s1 = take_caps o s msg in
    if s.config.require_v34 && not s.v34
    then abort_dcn o seen err_incompat
    else if s.config.poll_serve && not (test_bit s1.far_dis 10)
    then abort_dcn o s1 err_incompat
    else elim (choose_modem o s1) [
      | none ↦ abort_dcn o s1 err_incompat
      | some s2 ↦
          let s3 = with_encoding s2 in
          elim (choose_kind s3) [
            | none ↦ abort_dcn o s3 err_incompat
            | some s4 ↦ send_dcs_then_tcf s4
          ]
    ]

-- C_WAIT_DIS
unfoldable pub in_c_wait_dis : Outside → T30 → List ℕ → T30
unfolding capture_far_ident take_caps finish poll_send_dtc recv_caps_begin_tx
in_c_wait_dis o s msg =
    let s1 = take_caps o s msg in
    let polled =
      if test_bit s1.far_dis 9 then poll_send_dtc o s1 else abort_dcn o s1 err_incompat in
    if is_fcf msg Fcf.csi
    then capture_far_ident s msg
    else if is_fcf msg Fcf.dis
    then (if s.config.poll_receive then polled else recv_caps_begin_tx o s msg)
    else s

-- C_WAIT_CFR
unfoldable pub in_c_wait_cfr : Outside → T30 → List ℕ → T30
unfolding begin_ecm_image_tx begin_image_tx next_allowed_fb finish take_fallback send_dcs_then_tcf
in_c_wait_cfr o s msg =
    if is_fcf msg Fcf.cfr
    then (if s.neg.ecm then begin_ecm_image_tx o s else begin_image_tx o s)
    else if is_fcf msg Fcf.ftt
    then elim (next_allowed_fb o.modem_allowed (s.neg.fallback + 1)) [
      | none ↦ abort_dcn o s err_general
      | some i ↦ send_dcs_then_tcf (take_fallback s i)
    ]
    else s

-- The last page is out: a DCN, and then the end.
abbrev pub last_page_out : T30 → T30
last_page_out s =
    let s' = record s { stats = record (s.stats) { pages_tx = s.doc.cur_page + 1 } } in
    go (send_dcn s') c_send_dcn

abbrev pub next_page : T30 → T30
next_page s = record s { doc = record (s.doc) { cur_page = s.doc.cur_page + 1 } }

-- A page was rejected: again at the next lower rate, twice at most.
unfoldable pub page_rejected : Outside → T30 → T30
unfolding next_allowed_fb finish take_fallback send_dcs_then_tcf tx_v21_frames
page_rejected o s =
    let s1 = record s { tries = record (s.tries) { rtn_count = s.tries.rtn_count + 1 } } in
    let given_up = finish o (send_dcn s1) err_general in
    elim (next_allowed_fb o.modem_allowed (s.neg.fallback + 1)) [
      | none ↦ given_up
      | some i ↦
          if ltb 2 s1.tries.rtn_count then given_up else send_dcs_then_tcf (take_fallback s1 i)
    ]

-- C_WAIT_MCF
unfoldable pub in_c_wait_mcf : Outside → T30 → List ℕ → T30
unfolding begin_image_tx tx_v21_frames page_rejected
in_c_wait_mcf o s msg =
    let accepted = record s { tries = record (s.tries) { rtn_count = 0 } } in
    if is_fcf msg Fcf.mcf || is_fcf msg Fcf.rtp
    then (if s.doc.last_post_fcf == Fcf.mps
        then begin_image_tx o (next_page accepted)
        else last_page_out accepted)
    else if is_fcf msg Fcf.rtn
    then page_rejected o s
    else s

-- A block was acknowledged: the next block, the next page or the end.
unfoldable pub block_acked : Outside → T30 → T30
unfolding ecm_build_block ecm_start_burst begin_ecm_image_tx tx_v21_frames
block_acked o s =
    let following = record s {
      tx = record (s.tx) { tx_base = s.tx.tx_base + known_frames s.ecm_frames * ecm_octets };
      ecm_block = s.ecm_block + 1;
    } in
    let counted = record s { stats = record (s.stats) { pages_tx = s.doc.cur_page + 1 } } in
    if not s.tx.at_page_end
    then ecm_start_burst (ecm_build_block o following)
    else if s.tx.next_tx_step == Fcf.mps
    then begin_ecm_image_tx o (next_page counted)
    else last_page_out s

-- Frames of the block are still missing: a burst of those, and after four such answers in a row a
-- lower rate, or the end of the block at the lowest.
unfoldable pub block_incomplete : Outside → T30 → List ℕ → T30
unfolding ecm_apply_ppr ecm_start_burst tx_v21_frames finish next_allowed_fb take_fallback
    ecm_send_ctc ecm_send_eor
block_incomplete o s msg =
    let s1 = ecm_apply_ppr s msg in
    let count = s1.tries.ppr_count + 1 in
    let s2 = record s1 { tries = record (s1.tries) { ppr_count = count } } in
    let slower : ℕ → T30 = λ i.
      let s3 = take_fallback s2 i in
      ecm_send_ctc (record s3 { tries = record (s3.tries) { ppr_count = 0; ctc_retries = 0 } }) in
    if s.v34
    then (if ltb 16 count then finish o (send_dcn s2) err_general else ecm_start_burst s2)
    else if leb 4 count
    then elim (next_allowed_fb o.modem_allowed (s.neg.fallback + 1)) [
      | none ↦ ecm_send_eor s2
      | some i ↦ slower i
    ]
    else ecm_start_burst s2

-- C_WAIT_PPS_RESP
unfoldable pub in_c_wait_pps_resp : Outside → T30 → List ℕ → T30
unfolding block_acked block_incomplete ecm_send_pps
in_c_wait_pps_resp o s msg =
    if is_fcf msg Fcf.mcf
    then block_acked o s
    else if is_fcf msg Fcf.ppr
    then block_incomplete o s msg
    else if is_fcf msg Fcf.rnr
    then ecm_send_pps s
    else s
