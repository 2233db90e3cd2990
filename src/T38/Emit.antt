-- ===== src/T38/Emit.antt =====
-- `emit`, `emit_indicator`, `emit_data`, `load_hdlc_frame`, `step_complete`.
use nospandsp_fax.Common.{ℕ, ◌+◌, false, none, some, List, [], ◌∷◌, ◌++◌, map, length}
use nospandsp_fax.Common.{take, ◌==◌, if◌then◌else◌}
use nospandsp_fax.Udptl.Types.{max_dgram}
use nospandsp_fax.Udptl.Encode.{build}
use nospandsp_fax.T38.Wire.{bitrev8, ifp_indicator, ifp_data}
use nospandsp_fax.T38.State.{T38, World, Iface, Phase, Status, put}

module _ {U : Type 0} where
  -- `emit`: nothing happens while the burst is suppressed, and a refused packet is dropped.
  unfoldable pub emit : World U → List ℕ → World U
  emit w ifp =
      let (udptl', result) = build w.t38.udptl ifp max_dgram in
      let t' : T38 = record (w.t38) { udptl = udptl' } in
      let w' : World U = elim result [
        | none ↦ record w { t38 = t' }
        | some dgram ↦ record w { t38 = t'; sent = w.sent ++ (dgram ∷ []) }
      ] in
      if w.t38.tx_suppress then w else w'

  -- `s->udptl.red_entries = n`
  unfoldable pub set_redundancy : World U → ℕ → World U
  set_redundancy w n = put w (record (w.t38) { udptl = record (w.t38.udptl) { red_entries = n } })

  unfoldable pub emit_indicator : World U → ℕ → World U
  unfolding emit set_redundancy
  emit_indicator w ind = emit (set_redundancy w w.t38.red_ls) (ifp_indicator ind)

  unfoldable pub emit_data : World U → ℕ → List ℕ → World U
  unfolding emit set_redundancy
  emit_data w ft payload =
      emit (set_redundancy w (if w.t38.tx_dt == 0 then w.t38.red_ls else w.t38.red_hs))
        (ifp_data w.t38.tx_dt ft payload)

  -- `step_complete`
  unfoldable pub step_complete : Iface U → World U → World U
  step_complete up w =
      up.front_end_status Status.send_step_complete
        (put w (record (w.t38) { tx_phase = Phase.idle; tx_suppress = false }))

-- `load_hdlc_frame`: `sizeof(s->tx_frame)` is 600.
unfoldable pub load_hdlc_frame : T38 → List ℕ → T38
load_hdlc_frame s frame = record s {
  tx_frame = map bitrev8 (take 600 frame);
  tx_frame_off = 0;
  tx_burst_octets = s.tx_burst_octets + (length (take 600 frame) + 4);
}
