-- ===== src/T30/Status.antt =====
-- `on_status` of nf_t30.c: a step of the backend that is complete, carriers and training.
use nospandsp_fax.Common.{ℕ, ◌+◌, ◌*◌, ◌/◌, Bool, true, false}
use nospandsp_fax.Common.{ltb, leb, ◌==◌, ◌&&◌}
use nospandsp_fax.Common.{if◌then◌else◌}
use nospandsp_fax.T30.Fcf
use nospandsp_fax.T30.Tables.{pause, ced, cng, v34}
use nospandsp_fax.T30.State.{
  T30, Outside, Status, training_succeeded, training_failed, send_step_complete, carrier_down,
  other, ok, err_general, set_tx_type, set_rx_type, call, go, arm_timeout, disarm_timeout, Substate,
  c_wait_v8, c_wait_dis, c_send_dcs, c_dcs_pause, c_send_tcf, c_wait_cfr, c_send_image, c_send_post,
  c_wait_mcf, c_send_dcn, c_send_dtc, c_send_ecm, c_send_pps, c_wait_pps_resp, c_send_ctc,
  c_wait_ctr, c_send_eor, c_wait_eor, c_wait_v34, a_send_v8, a_send_ced, a_send_dis, a_wait_dcs,
  a_recv_tcf, a_send_cfr, a_send_ftt, a_recv_image, a_wait_post, a_send_mcf, a_send_rtn, a_wait_dcn,
  a_recv_ecm, a_wait_pps, a_send_ppr, a_send_ecm_mcf, a_send_ctr, a_send_err, a_reack, a_wait_v34,
}
use nospandsp_fax.T30.Control.{
  tx_v21_frames, rx_v21, tx_image, rx_image, send_simple, v34_refresh_bit_rate, finish,
}
use nospandsp_fax.T30.EcmSend.{ecm_send_pps}
use nospandsp_fax.T30.EcmReceive.{ecm_rx_begin_page, ecm_rx_listen}
use nospandsp_fax.T30.Pages.{start_rx_page, finish_rx_page, ecm_finish_page}
use nospandsp_fax.T30.Calling.{answer_send_dis}

-- `rx_v21`, then a wait of `ms` milliseconds for an answer.
unfoldable pub await : T30 → ℕ → Substate → T30
unfolding rx_v21
await s ms next = go (arm_timeout (rx_v21 s) ms) next

-- `eval_tcf`: the longest run of zeros must last for a second.
unfoldable pub eval_tcf : T30 → T30
unfolding tx_v21_frames
eval_tcf s =
    let r = s.recv in
    let longest = if ltb r.tcf_most r.tcf_zeros then r.tcf_zeros else r.tcf_most in
    let s1 = record (disarm_timeout s) { recv = record r { tcf_most = longest } } in
    if leb s.neg.bit_rate longest
    then go (send_simple (tx_v21_frames s1) Fcf.cfr) a_send_cfr
    else go (send_simple (tx_v21_frames s1) Fcf.ftt) a_send_ftt

abbrev pub fresh_dis : T30 → T30
fresh_dis s = record s { tries = record (s.tries) { dis_retries = 0 } }

-- An image is out: MPS if more pages follow, else EOP.
unfoldable pub send_post : T30 → T30
unfolding tx_v21_frames
send_post s =
    let fcf = if ltb (s.doc.cur_page + 1) s.doc.pages_total then Fcf.mps else Fcf.eop in
    let s1 = send_simple (tx_v21_frames s) fcf in
    go
      (record s1 {
        doc = record (s1.doc) { last_post_fcf = fcf };
        tries = record (s1.tries) { post_retries = 0 };
      })
      c_send_post

-- A page was acknowledged: the next one, new capabilities, or the end.
unfoldable pub page_acked : Outside → T30 → T30
unfolding start_rx_page answer_send_dis await
page_acked o s =
    if s.doc.last_post_fcf == Fcf.mps
    then go (rx_image (start_rx_page s) 1) a_recv_image
    else if s.doc.last_post_fcf == Fcf.eom
    then answer_send_dis o (fresh_dis s)
    else await s 7000 a_wait_dcn

-- A block was acknowledged: another one of the page, or what follows the page.
unfoldable pub block_done : Outside → T30 → T30
unfolding ecm_rx_listen ecm_finish_page ecm_rx_begin_page answer_send_dis await
block_done o s =
    let s1 = ecm_finish_page o s in
    if s.rx.last_pps_fcf2 == Fcf.null
    then ecm_rx_listen s
    else if s.rx.last_pps_fcf2 == Fcf.mps
    then ecm_rx_listen (ecm_rx_begin_page s1)
    else if s.rx.last_pps_fcf2 == Fcf.eom
    then answer_send_dis o (fresh_dis s1)
    else await s1 7000 a_wait_dcn

abbrev pub start_tcf : T30 → T30
start_tcf s =
    go (tx_image (record s { recv = record (s.recv) { tcf_left = 3 * s.neg.bit_rate / 2 } }) 0)
      c_send_tcf

-- NF_STATUS_SEND_STEP_COMPLETE
unfoldable pub step_complete : Outside → Substate → T30 → T30
unfolding answer_send_dis await send_post finish ecm_send_pps ecm_rx_begin_page ecm_rx_listen
    page_acked block_done
step_complete o a_send_ced s = answer_send_dis o s
step_complete o a_send_dis s = await s 3000 a_wait_dcs
step_complete o c_send_dcs s =
    if s.v34
    then await s 10000 c_wait_cfr
    else go (call s (set_tx_type pause 0 200 false)) c_dcs_pause
step_complete o c_dcs_pause s = start_tcf s
step_complete o c_send_tcf s = await s 7000 c_wait_cfr
step_complete o c_send_image s = send_post s
step_complete o c_send_post s = await s 6000 c_wait_mcf
step_complete o c_send_dcn s = finish o s ok
step_complete o c_send_dtc s = await s 35000 a_wait_dcs
step_complete o c_send_ecm s =
    ecm_send_pps (record s { tries = record (s.tries) { post_retries = 0 } })
step_complete o c_send_pps s = await s 6000 c_wait_pps_resp
step_complete o c_send_ctc s = await s 6000 c_wait_ctr
step_complete o c_send_eor s = await s 6000 c_wait_eor
step_complete o a_send_cfr s =
    if s.neg.ecm then ecm_rx_listen (ecm_rx_begin_page s) else go (rx_image s 1) a_recv_image
step_complete o a_send_ftt s = await s 35000 a_wait_dcs
step_complete o a_send_rtn s = await s 35000 a_wait_dcs
step_complete o a_send_mcf s = page_acked o s
step_complete o a_send_ppr s = ecm_rx_listen s
step_complete o a_send_ctr s = ecm_rx_listen s
step_complete o a_send_err s = await s 7000 a_wait_pps
step_complete o a_send_ecm_mcf s = block_done o s
step_complete o a_reack s = elim (s.rx.reack_return) [
  | a_recv_ecm ↦ ecm_rx_listen s
  | _ ↦ await s 7000 a_wait_dcn
]
step_complete o _ s = s

-- NF_STATUS_CARRIER_DOWN
unfoldable pub carrier_lost : Substate → T30 → T30
unfolding eval_tcf finish_rx_page await
carrier_lost a_recv_tcf s = eval_tcf s
carrier_lost a_recv_image s = await (finish_rx_page s) 7000 a_wait_post
carrier_lost a_recv_ecm s = await s 7000 a_wait_pps
carrier_lost _ s = s

-- V.8 has settled on V.34 half-duplex: error correction and V.34's own startup.
unfoldable pub start_v34 : T30 → Substate → T30
start_v34 s next =
    let s1 = record s {
      v34 = true;
      want_ecm = true;
      neg = record (s.neg) { ecm = true; modem = v34; bit_rate = 24000 };
      stats = record (s.stats) { stat_rate = 24000 };
    } in
    go (arm_timeout (call (call s1 (set_tx_type v34 0 0 false)) (set_rx_type v34 0 0 false)) 40000)
      next

-- V.34 goes ahead if the application wants it and both ends offered it.
abbrev pub v34_settled : Outside → T30 → Bool
v34_settled o s = s.config.v34_enable && (o.audio && o.v34_negotiated)

-- NF_STATUS_TRAINING_SUCCEEDED
unfoldable pub trained : Outside → Substate → T30 → T30
unfolding start_v34 await answer_send_dis v34_refresh_bit_rate
trained o c_wait_v8 s =
    let next = if s.config.calling then c_wait_v34 else a_wait_v34 in
    if v34_settled o s then start_v34 s next else await s 35000 c_wait_dis
trained o a_send_v8 s =
    let next = if s.config.calling then c_wait_v34 else a_wait_v34 in
    if v34_settled o s then start_v34 s next else answer_send_dis o s
trained o c_wait_v34 s = await (disarm_timeout (v34_refresh_bit_rate o s)) 35000 c_wait_dis
trained o a_wait_v34 s = answer_send_dis o (disarm_timeout (v34_refresh_bit_rate o s))
trained o _ s = s

-- NF_STATUS_TRAINING_FAILED
unfoldable pub not_trained : Outside → Substate → T30 → T30
unfolding finish await
not_trained o c_wait_v34 s = finish o s err_general
not_trained o a_wait_v34 s = finish o s err_general
not_trained o c_wait_v8 s = await (call s (set_tx_type cng 0 0 false)) 35000 c_wait_dis
not_trained o a_send_v8 s = go (call s (set_tx_type ced 0 0 false)) a_send_ced
not_trained o _ s = s

-- `on_status`
unfoldable pub on_status : Outside → T30 → Status → T30
unfolding trained not_trained step_complete carrier_lost
on_status o s training_succeeded = trained o s.substate s
on_status o s training_failed = not_trained o s.substate s
on_status o s send_step_complete = step_complete o s.substate s
on_status o s carrier_down = carrier_lost s.substate s
on_status o s other = s
