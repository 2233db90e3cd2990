-- ===== src/T30/Control.antt =====
-- The modem control shortcuts of nf_t30.c, the frames without an information field, station
-- identifiers, and the end of a call.
use nospandsp_fax.Common.{ℕ, ◌-◌, Bool, true, false, some}
use nospandsp_fax.Common.{List, [], ◌∷◌, ◌++◌, reverse, length, take, replicate, ltb}
use nospandsp_fax.Common.{if◌then◌else◌, not, ◌&&◌}
use nospandsp_fax.T30.Fcf
use nospandsp_fax.T30.Tables.{no_modem, v21, v34, done, addr, ctl_final, ctl_nonfinal}
use nospandsp_fax.T30.State.{
  T30, Substate, Outcome, Outside, set_tx_type, set_rx_type, send_hdlc, begin_hdlc_stream, phase_e,
  call, with_x, go, st_done,
}

-- `tx_v21_frames` and `rx_v21`: the control channel.
unfoldable pub tx_v21_frames : T30 → T30
tx_v21_frames s = call s (if s.v34 then set_tx_type v34 1200 0 true else set_tx_type v21 300 0 true)

unfoldable pub rx_v21 : T30 → T30
rx_v21 s = call s (if s.v34 then set_rx_type v34 1200 0 true else set_rx_type v21 300 0 true)

abbrev pub tx_none : T30 → T30
tx_none s = call s (set_tx_type no_modem 0 0 false)

abbrev pub rx_none : T30 → T30
rx_none s = call s (set_rx_type no_modem 0 0 false)

abbrev pub tx_image : T30 → ℕ → T30
tx_image s short = call s (set_tx_type s.neg.modem s.neg.bit_rate short false)

abbrev pub rx_image : T30 → ℕ → T30
rx_image s short = call s (set_rx_type s.neg.modem s.neg.bit_rate short false)

abbrev pub simple_frame : Bool → ℕ → List ℕ
simple_frame x fcf = addr ∷ ctl_final ∷ with_x x fcf ∷ []

abbrev pub send_simple : T30 → ℕ → T30
send_simple s fcf = call s (send_hdlc (simple_frame s.dis_received fcf))

-- `build_id_frame`: the identifier backwards, then spaces, 20 octets in all.
unfoldable pub build_id_frame : Bool → List ℕ → ℕ → List ℕ
build_id_frame x ident fcf =
    let id = take 20 ident in
    addr ∷ ctl_nonfinal ∷ with_x x fcf ∷ reverse id ++ replicate (20 - length id) 32

-- `send_ctrl_burst`
unfoldable pub send_ctrl_burst : T30 → ℕ → List ℕ → Substate → T30
unfolding tx_v21_frames build_id_frame
send_ctrl_burst s id_fcf frame next =
    let s' = tx_v21_frames s in
    if ltb 0 (length s.config.ident) && not s.v34
    then record (call s' begin_hdlc_stream) {
      cburst = some (build_id_frame s.dis_received s.config.ident id_fcf ∷ take 24 frame ∷ []);
      substate = next;
    }
    else go (call s' (send_hdlc frame)) next

-- `v34_refresh_bit_rate`
unfoldable pub v34_refresh_bit_rate : Outside → T30 → T30
v34_refresh_bit_rate o s =
    if s.v34 && (o.audio && ltb 0 o.v34_bit_rate)
    then record s { stats = record (s.stats) { stat_rate = o.v34_bit_rate } }
    else s

unfoldable pub finish : Outside → T30 → Outcome → T30
unfolding v34_refresh_bit_rate
finish o s result =
    let s' =
      v34_refresh_bit_rate o (record s { finished = true; result = result; substate = st_done }) in
    let quiet = call (rx_none (tx_none s')) (set_tx_type done 0 0 false) in
    if s.finished then s else call quiet (phase_e result)

abbrev pub abort_dcn : Outside → T30 → Outcome → T30
abort_dcn o s result = finish o (send_simple s Fcf.dcn) result

-- `tx_v21_frames`, then a DCN that is let out before the call ends.
abbrev pub send_dcn : T30 → T30
send_dcn s = send_simple (tx_v21_frames s) Fcf.dcn
