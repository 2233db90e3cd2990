-- ===== src/T30/Answering.antt =====
-- What the receiver of a document does with a frame, and the dispatch of `on_hdlc` in nf_t30.c.
use nospandsp_fax.Common.{ℕ, Bool, List, length, ltb}
use nospandsp_fax.Common.{not, ◌&&◌, ◌||◌, if◌then◌else◌}
use nospandsp_fax.T30.Fcf
use nospandsp_fax.T30.Tables.{t4_fcd, t4_rcp}
use nospandsp_fax.T30.State.{
  T30, Outside, Substate, ok, err_general, go, arm_timeout, disarm_timeout, a_send_cfr, a_recv_tcf,
  a_send_rtn, a_send_mcf, a_wait_dcn, a_wait_dcs, a_wait_post, a_recv_ecm, a_wait_pps, c_wait_dis,
  c_wait_cfr, c_wait_mcf, c_wait_pps_resp, c_wait_ctr, c_wait_eor,
}
use nospandsp_fax.T30.Control.{tx_v21_frames, rx_image, send_simple, finish, send_dcn}
use nospandsp_fax.T30.Fields.{parse_dcs, capture_far_ident}
use nospandsp_fax.T30.EcmSend.{ecm_start_burst}
use nospandsp_fax.T30.EcmReceive.{
  ecm_store_fcd, ecm_process_pps, ecm_process_ctc, ecm_process_eor, reack,
}
use nospandsp_fax.T30.Pages.{start_rx_page}
use nospandsp_fax.T30.Calling.{
  is_fcf, in_c_wait_dis, in_c_wait_cfr, in_c_wait_mcf, in_c_wait_pps_resp, recv_caps_begin_tx,
}

-- A DCS: over V.34 it is confirmed at once, else the training check follows.
unfoldable pub take_dcs : T30 → List ℕ → T30
unfolding parse_dcs tx_v21_frames start_rx_page
take_dcs s msg =
    let s1 = parse_dcs s msg in
    let s2 = rx_image (start_rx_page s1) 0 in
    let s3 = record s2 { recv = record (s2.recv) { tcf_zeros = 0; tcf_most = 0 } } in
    if s.v34
    then go (send_simple (tx_v21_frames s1) Fcf.cfr) a_send_cfr
    else go (arm_timeout s3 7000) a_recv_tcf

-- A_WAIT_DCS and A_RECV_TCF
unfoldable pub in_a_wait_dcs : Outside → T30 → List ℕ → T30
unfolding capture_far_ident take_dcs recv_caps_begin_tx finish
in_a_wait_dcs o s msg =
    if is_fcf msg Fcf.tsi || is_fcf msg Fcf.cig
    then capture_far_ident s msg
    else if is_fcf msg Fcf.dcs
    then take_dcs s msg
    else if s.config.poll_serve && is_fcf msg Fcf.dis
    then recv_caps_begin_tx o s msg
    else if is_fcf msg Fcf.dcn
    then finish o s ok
    else s

abbrev pub ends_page : List ℕ → Bool
ends_page msg = is_fcf msg Fcf.eop || (is_fcf msg Fcf.mps || is_fcf msg Fcf.eom)

abbrev pub post_fcf : List ℕ → ℕ
post_fcf msg =
    if is_fcf msg Fcf.mps then Fcf.mps else if is_fcf msg Fcf.eom then Fcf.eom else Fcf.eop

abbrev pub responded : T30 → ℕ → T30
responded s fcf = send_simple (record s { rx = record (s.rx) { last_resp_fcf = fcf } }) fcf

-- A_WAIT_POST
unfoldable pub in_a_wait_post : Outside → T30 → List ℕ → T30
unfolding tx_v21_frames finish
in_a_wait_post o s msg =
    let s1 = tx_v21_frames (record s { doc = record (s.doc) { last_post_fcf = post_fcf msg } }) in
    if ends_page msg
    then (if s.recv.rx_page_bad
        then go (responded s1 Fcf.rtn) a_send_rtn
        else go (responded s1 Fcf.mcf) a_send_mcf)
    else if is_fcf msg Fcf.dcn
    then finish o s ok
    else s

-- A_WAIT_PPS, and A_RECV_ECM for what is not part of a page.
unfoldable pub in_a_wait_pps : Outside → T30 → List ℕ → T30
unfolding ecm_process_pps ecm_process_ctc ecm_process_eor finish
in_a_wait_pps o s msg =
    if is_fcf msg Fcf.pps
    then ecm_process_pps s msg
    else if is_fcf msg Fcf.ctc
    then ecm_process_ctc s msg
    else if is_fcf msg Fcf.eor
    then ecm_process_eor s
    else if is_fcf msg Fcf.dcn
    then finish o s ok
    else s

-- A_RECV_ECM
unfoldable pub in_a_recv_ecm : Outside → T30 → List ℕ → T30
unfolding ecm_store_fcd in_a_wait_pps
in_a_recv_ecm o s msg =
    if is_fcf msg t4_fcd
    then ecm_store_fcd s msg
    else if is_fcf msg t4_rcp
    then s
    else in_a_wait_pps o s msg

-- A_WAIT_DCN
unfoldable pub in_a_wait_dcn : Outside → T30 → List ℕ → T30
unfolding finish reack
in_a_wait_dcn o s msg =
    if is_fcf msg Fcf.dcn
    then finish o s ok
    else if is_fcf msg Fcf.pps || ends_page msg
    then reack s a_wait_dcn
    else s

-- The `switch` of `on_hdlc`.
unfoldable pub dispatch : Outside → Substate → T30 → List ℕ → T30
unfolding in_c_wait_dis in_c_wait_cfr in_c_wait_mcf in_c_wait_pps_resp ecm_start_burst tx_v21_frames
    finish in_a_wait_dcs in_a_wait_post in_a_recv_ecm in_a_wait_pps in_a_wait_dcn
dispatch o c_wait_dis s msg = in_c_wait_dis o s msg
dispatch o c_wait_cfr s msg = in_c_wait_cfr o s msg
dispatch o c_wait_mcf s msg = in_c_wait_mcf o s msg
dispatch o c_wait_pps_resp s msg = in_c_wait_pps_resp o s msg
dispatch o c_wait_ctr s msg = if is_fcf msg Fcf.ctr then ecm_start_burst s else s
dispatch o c_wait_eor s msg = if is_fcf msg Fcf.err then finish o (send_dcn s) err_general else s
dispatch o a_wait_dcs s msg = in_a_wait_dcs o s msg
dispatch o a_recv_tcf s msg = in_a_wait_dcs o s msg
dispatch o a_wait_post s msg = in_a_wait_post o s msg
dispatch o a_recv_ecm s msg = in_a_recv_ecm o s msg
dispatch o a_wait_pps s msg = in_a_wait_pps o s msg
dispatch o a_wait_dcn s msg = in_a_wait_dcn o s msg
dispatch o _ s msg = s

-- `on_hdlc`: a frame that is damaged or short is ignored; any other stops the timer.
unfoldable pub on_hdlc : Outside → T30 → List ℕ → Bool → T30
unfolding dispatch
on_hdlc o s msg good =
    if not good || ltb (length msg) 3 then s else dispatch o s.substate (disarm_timeout s) msg
