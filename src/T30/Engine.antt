-- ===== src/T30/Engine.antt =====
-- The other callbacks of the engine in nf_t30.c: bits, the timer, the start of a call, and the
-- callbacks as one step.
use nospandsp_fax.Common.{ℕ, ◌+◌, ◌-◌, ◌*◌, ◌/◌, ◌%◌, Bool, false, Option, none}
use nospandsp_fax.Common.{some, List, get_or, length, ltb, leb, ◌==◌, not, ◌&&◌}
use nospandsp_fax.Common.{bit, if◌then◌else◌}
use nospandsp_fax.T30.Fcf
use nospandsp_fax.T30.Tables.{ced, cng, v8}
use nospandsp_fax.T30.State.{
  T30, Outside, Status, err_timeout, set_tx_type, set_rx_type, call, go, Substate, c_wait_v8,
  c_wait_dis, c_send_tcf, c_send_image, c_send_post, c_wait_mcf, c_send_ecm, c_wait_pps_resp,
  c_wait_ctr, a_send_v8, a_send_ced, a_wait_dcs, a_recv_tcf, a_recv_image,
}
use nospandsp_fax.T30.Control.{tx_v21_frames, send_simple, finish}
use nospandsp_fax.T30.EcmSend.{ecm_send_pps, ecm_send_ctc}
use nospandsp_fax.T30.Pages.{tcf_bit, image_bit}
use nospandsp_fax.T30.Calling.{answer_send_dis}
use nospandsp_fax.T30.Answering.{on_hdlc}
use nospandsp_fax.T30.Status.{await, eval_tcf, on_status}

-- `on_get_bit`; none is NF_GET_BIT_END. The count of the training check stops at 0.
unfoldable pub on_get_bit : T30 → T30 × Option ℕ
on_get_bit s =
    let r = s.recv in
    let at = s.doc.enc_bit in
    elim (s.substate) [
      | c_send_tcf ↦
          if r.tcf_left == 0
          then (s, none)
          else (record s { recv = record r { tcf_left = r.tcf_left - 1 } }, some 0)
      | c_send_image ↦ if leb (length s.doc.enc * 8) at then (s, none) else (
        record s { doc = record (s.doc) { enc_bit = at + 1 } },
        some (bit (get_or s.doc.enc (at / 8) 0) (at % 8)),
      )
      | _ ↦ (s, none)
    ]

-- `on_put_bit`
unfoldable pub on_put_bit : T30 → ℕ → T30
unfolding tcf_bit image_bit
on_put_bit s b = elim (s.substate) [
  | a_recv_tcf ↦ tcf_bit s b
  | a_recv_image ↦ image_bit s b
  | _ ↦ s
]

-- A command that was not answered goes out again, three times at most.
unfoldable pub resend_post : T30 → T30
unfolding tx_v21_frames
resend_post s =
    let s1 = record s { tries = record (s.tries) { post_retries = s.tries.post_retries + 1 } } in
    go (send_simple (tx_v21_frames s1) s.doc.last_post_fcf) c_send_post

-- The end of a wait.
unfoldable pub expired : Outside → Substate → T30 → T30
unfolding eval_tcf resend_post ecm_send_pps ecm_send_ctc answer_send_dis finish
expired o a_recv_tcf s = eval_tcf s
expired o c_wait_mcf s =
    if ltb s.tries.post_retries 3
    then resend_post s
    else finish o (send_simple s Fcf.dcn) err_timeout
expired o c_wait_pps_resp s =
    let s1 = record s { tries = record (s.tries) { post_retries = s.tries.post_retries + 1 } } in
    if ltb s.tries.post_retries 3
    then ecm_send_pps s1
    else finish o (send_simple s Fcf.dcn) err_timeout
expired o c_wait_ctr s =
    let s1 = record s { tries = record (s.tries) { ctc_retries = s.tries.ctc_retries + 1 } } in
    if ltb s.tries.ctc_retries 3
    then ecm_send_ctc s1
    else finish o (send_simple s Fcf.dcn) err_timeout
expired o a_wait_dcs s =
    let s1 = record s { tries = record (s.tries) { dis_retries = s.tries.dis_retries + 1 } } in
    if not s.config.poll_receive && ltb s.tries.dis_retries 10
    then answer_send_dis o s1
    else finish o (send_simple s Fcf.dcn) err_timeout
expired o _ s = finish o (send_simple s Fcf.dcn) err_timeout

-- `on_timer`
unfoldable pub on_timer : Outside → T30 → ℕ → T30
unfolding expired
on_timer o s samples =
    let s1 = record s { timeout = s.timeout - samples } in
    if s.timeout == 0 then s else if leb s.timeout samples then expired o s.substate s1 else s1

-- `start`
unfoldable pub start : Outside → T30 → T30
unfolding await
start o s =
    if o.audio && s.config.v34_enable
    then go (call (call s (set_tx_type v8 0 0 false)) (set_rx_type v8 0 0 false))
        (if s.config.calling then c_wait_v8 else a_send_v8)
    else if s.config.calling
    then await (call s (set_tx_type cng 0 0 false)) 35000 c_wait_dis
    else go (call s (set_tx_type ced 0 0 false)) a_send_ced

-- `nf_t30_tx_progress`: the page, the octets sent and the octets in all.
unfoldable pub tx_progress : T30 → Option (ℕ × ℕ × ℕ)
tx_progress s =
    let total = length s.doc.enc in
    let reached = s.tx.tx_base + s.tx.cursor * 256 in
    elim (s.substate) [
      | c_send_ecm ↦ some (s.doc.cur_page, (if ltb total reached then total else reached), total)
      | c_send_image ↦ some (s.doc.cur_page, s.doc.enc_bit / 8, total)
      | _ ↦ none
    ]

-- What reaches the engine between two calls of it.
pub data Event : Type 0 where
  frame : List ℕ → Bool → Event
  status : Status → Event
  put : ℕ → Event
  timer : ℕ → Event

-- The callbacks as one step. A frame or a bit that the backend asks for is `on_get_frame` and
-- `on_get_bit`.
unfoldable pub step : Outside → T30 → Event → T30
unfolding on_hdlc on_status on_put_bit on_timer
step o s (frame msg good) = on_hdlc o s msg good
step o s (status what) = on_status o s what
step o s (put b) = on_put_bit s b
step o s (timer samples) = on_timer o s samples
