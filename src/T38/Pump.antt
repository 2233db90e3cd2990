-- ===== src/T38/Pump.antt =====
-- `nf_t38_pump`: one function for each phase, then the dispatch and the timer.
use nospandsp_fax.Common.{
  ℕ, zero, suc, ◌+◌, ◌-◌, ◌*◌, ◌/◌, ◌%◌, ◌^◌, Bool, true, false, Option, none, some,
}
use nospandsp_fax.Common.{List, [], ◌∷◌, length, take, drop, replicate, ltb, leb, ◌==◌, ◌||◌}
use nospandsp_fax.Common.{if◌then◌else◌}
use Prim.Native.Nat.{min, max}
use nospandsp_fax.T38.Wire.{indicator_delay, ind_no_signal, ft_hdlc_data, ft_hdlc_sig_end}
use nospandsp_fax.T38.Wire.{ft_hdlc_fcs_ok, ft_non_ecm_data, ft_non_ecm_sig_end}
use nospandsp_fax.T38.State.{T38, World, Iface, Phase, Follow, put}
use nospandsp_fax.T38.Emit.{emit_indicator, emit_data, step_complete, load_hdlc_frame}

-- `s->tx_bit_rate * ms / 8000`: the octets that the carrier plays in a tick.
abbrev pub tick_octets : T38 → ℕ → ℕ
tick_octets s ms = s.tx_bit_rate * ms / 8000

-- What follows the indicator once it has been repeated.
unfoldable pub after_indicator : T38 → T38
after_indicator s =
    let next : Phase = elim s.tx_follow [
      | Follow.hdlc ↦ if s.tx_is_stream || s.tx_have_frame then Phase.hdlc_data else Phase.hdlc_end
      | _ ↦ Phase.nonecm
    ] in
    let wait = indicator_delay s.tx_ind in
    let data_next : T38 = record s {
      tx_next_phase = next;
      tx_wait_ms = wait;
      tx_phase = if ltb 0 wait then Phase.ind_wait else next;
    } in
    elim s.tx_follow [
      | Follow.nothing ↦ record s { tx_phase = Phase.idle }
      | Follow.tone ↦ record s { tx_phase = Phase.tone_wait }
      | _ ↦ data_next
    ]

-- The octets that a gateway still has to play before the carrier may go, in ms.
abbrev pub drain_ms : T38 → ℕ
drain_ms s = s.tx_burst_octets * 8 * 1000 / (if ltb 0 s.tx_bit_rate then s.tx_bit_rate else 300)

module _ {U : Type 0} (up : Iface U) where
  abbrev set_phase : World U → Phase → World U
  set_phase w p = put w (record (w.t38) { tx_phase = p })

  -- TX_IND
  unfoldable pub pump_ind : World U → World U
  unfolding after_indicator
  pump_ind w =
      let w' = emit_indicator w w.t38.tx_ind in
      if ltb 0 w'.t38.tx_ind_left
      then put w' (record (w'.t38) { tx_ind_left = w'.t38.tx_ind_left - 1 })
      else put w' (after_indicator w'.t38)

  -- TX_IND_WAIT. The wait stops at 0 here, where C's goes below; it is not read again.
  unfoldable pub pump_ind_wait : World U → ℕ → World U
  pump_ind_wait w ms =
      let left = w.t38.tx_wait_ms - ms in
      put w (record (w.t38) {
        tx_wait_ms = left;
        tx_phase = if left == 0 then w.t38.tx_next_phase else w.t38.tx_phase;
      })

  -- One carrier-rate-sized chunk of the current frame.
  unfoldable pub send_chunk : World U → ℕ → World U
  send_chunk w ms =
      let s = w.t38 in
      let want = min (max (tick_octets s ms) 1) (length s.tx_frame - s.tx_frame_off) in
      let w' = emit_data w ft_hdlc_data (take want (drop s.tx_frame_off s.tx_frame)) in
      let off = s.tx_frame_off + want in
      put w' (record (w'.t38) {
        tx_frame_off = off;
        tx_phase = if leb (length s.tx_frame) off then Phase.hdlc_fcs else w'.t38.tx_phase;
      })

  -- TX_HDLC_DATA: a new frame is fetched when the last one is out, or the burst is done.
  unfoldable pub pump_hdlc_data : World U → ℕ → World U
  unfolding send_chunk
  pump_hdlc_data w ms =
      let s = w.t38 in
      let (w', f) = up.hdlc_get_frame w in
      let fetched =
        if length f == 0
        then set_phase w' Phase.hdlc_drain
        else send_chunk (put w' (load_hdlc_frame w'.t38 f)) ms in
      if leb (length s.tx_frame) s.tx_frame_off
      then (if s.tx_is_stream then fetched else set_phase w Phase.hdlc_drain)
      else send_chunk w ms

  -- TX_HDLC_FCS
  unfoldable pub pump_hdlc_fcs : World U → World U
  pump_hdlc_fcs w =
      let w' = emit_data w ft_hdlc_fcs_ok [] in
      set_phase w' (if w'.t38.tx_is_stream then Phase.hdlc_data else Phase.hdlc_drain)

  -- TX_HDLC_DRAIN
  unfoldable pub pump_hdlc_drain : World U → World U
  pump_hdlc_drain w =
      if ltb w.t38.tx_burst_ms (drain_ms w.t38) then w else set_phase w Phase.hdlc_end

  -- TX_HDLC_END and TX_NONECM_END: the end field, no signal, and the step is complete.
  unfoldable pub pump_end : World U → ℕ → World U
  pump_end w ft = step_complete up (emit_indicator (emit_data w ft []) ind_no_signal)

  -- Eight bits of the image, first bit highest; `none` is the end of the image, at which an
  -- unfinished octet is lost. `left` counts the bits to go.
  unfoldable pub pull_octet : ℕ → ℕ → World U → World U × Option ℕ
  pull_octet zero octet w = (w, some octet)
  pull_octet (suc left) octet w =
      let (w', got) = up.non_ecm_get_bit w in
      elim got [ none ↦ (w', none) | some b ↦ pull_octet left (octet + b % 2 * 2 ^ left) w' ]

  -- The `while (oct < want)` loop: the octets, and whether the image ended.
  unfoldable pub pull_chunk : ℕ → World U → World U × List ℕ × Bool
  unfolding pull_octet
  pull_chunk zero w = (w, [], false)
  pull_chunk (suc want) w =
      let (w', got) = pull_octet 8 0 w in
      elim got [
        | none ↦ (w', [], true)
        | some octet ↦ let (w'', octets, ended) = pull_chunk want w' in (w'', octet ∷ octets, ended)
      ]

  -- TX_NONECM
  unfoldable pub pump_nonecm : World U → ℕ → World U
  unfolding pull_chunk
  pump_nonecm w ms =
      let want = min (max (tick_octets w.t38 ms) 8) 504 in
      let (w', chunk, ended) = pull_chunk want w in
      let w'' = if ltb 0 (length chunk) then emit_data w' ft_non_ecm_data chunk else w' in
      let trail = put w'' (record (w''.t38) {
        tx_trailer = w''.t38.tx_bit_rate * 200 / 8000;
        tx_phase = Phase.nonecm_trail;
      }) in
      if ended then trail else w''

  -- TX_NONECM_TRAIL
  unfoldable pub pump_nonecm_trail : World U → ℕ → World U
  pump_nonecm_trail w ms =
      let want = min (min (max (tick_octets w.t38 ms) 8) w.t38.tx_trailer) 504 in
      let w' = emit_data w ft_non_ecm_data (replicate want 0) in
      let left = w'.t38.tx_trailer - want in
      put w' (record (w'.t38) {
        tx_trailer = left;
        tx_phase = if left == 0 then Phase.nonecm_end else w'.t38.tx_phase;
      })

  -- TX_TONE_WAIT and TX_PAUSE_WAIT
  unfoldable pub pump_wait : World U → ℕ → World U
  pump_wait w ms =
      let left = w.t38.tx_wait_ms - ms in
      let w' = put w (record (w.t38) { tx_wait_ms = left }) in
      if left == 0 then step_complete up w' else w'

  -- The `switch` over the phase.
  unfoldable pub pump_phase : Phase → World U → ℕ → World U
  unfolding pump_ind pump_ind_wait pump_hdlc_data pump_hdlc_fcs pump_hdlc_drain pump_end pump_nonecm
      pump_nonecm_trail pump_wait
  pump_phase Phase.idle w ms = w
  pump_phase Phase.ind w ms = pump_ind w
  pump_phase Phase.ind_wait w ms = pump_ind_wait w ms
  pump_phase Phase.hdlc_data w ms = pump_hdlc_data w ms
  pump_phase Phase.hdlc_fcs w ms = pump_hdlc_fcs w
  pump_phase Phase.hdlc_drain w ms = pump_hdlc_drain w
  pump_phase Phase.hdlc_end w ms = pump_end w ft_hdlc_sig_end
  pump_phase Phase.nonecm w ms = pump_nonecm w ms
  pump_phase Phase.nonecm_trail w ms = pump_nonecm_trail w ms
  pump_phase Phase.nonecm_end w ms = pump_end w ft_non_ecm_sig_end
  pump_phase Phase.tone_wait w ms = pump_wait w ms
  pump_phase Phase.pause_wait w ms = pump_wait w ms
  pump_phase Phase.complete w ms = step_complete up w

  -- The time that an HDLC burst takes is counted in three phases.
  unfoldable pub count_burst : World U → ℕ → World U
  count_burst w ms =
      let later = put w (record (w.t38) { tx_burst_ms = w.t38.tx_burst_ms + ms }) in
      elim w.t38.tx_phase [
        | Phase.hdlc_data ↦ later
        | Phase.hdlc_fcs ↦ later
        | Phase.hdlc_drain ↦ later
        | _ ↦ w
      ]

  -- `nf_t38_pump`
  unfoldable pub pump : World U → ℕ → World U
  unfolding pump_phase count_burst
  pump w ms =
      let tick = if ms == 0 then 30 else ms in
      up.timer_update (tick * 8) (pump_phase w.t38.tx_phase (count_burst w tick) tick)
