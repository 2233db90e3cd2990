-- ===== src/T30/Repeats.antt =====
-- A PPS of nf_t30.c that is repeated because the acknowledgment was lost.
use nospandsp_fax.Common.{ℕ, ◌≡◌, refl, arith, sym, Bool, true, some, List, [], ◌∷◌}
use mathlib.Core.Path.{subst}
use nospandsp_fax.T30.Fcf
use nospandsp_fax.T30.State.{T30, Outside, Call, send_hdlc, a_reack, a_recv_ecm}
use nospandsp_fax.T30.Control.{simple_frame, tx_v21_frames}
use nospandsp_fax.T30.EcmReceive.{ecm_process_pps, same_block, reack}
use nospandsp_fax.T30.Transfer.{pps_frame, IsListening, pps_handled}
use nospandsp_fax.T30.Answering.{on_hdlc}

-- The state `t` has the page, the slots and the documents of `s`, and the acknowledgment is on its
-- way again, after which the receiver listens to the next block.
pub record Repeated (s t : T30) : Type 0 where
  pub page_kept : t.rx.page ≡ s.rx.page
  pub slots_kept : t.rx.slots ≡ s.rx.slots
  pub size_kept : t.ecm_frames ≡ s.ecm_frames
  pub written_kept : t.written ≡ s.written
  pub replying : t.substate ≡ a_reack
  pub returns : t.rx.reack_return ≡ a_recv_ecm
  pub replied :
      (older : List Call) × (t.calls ≡ send_hdlc (simple_frame s.dis_received Fcf.mcf) ∷ older)

same_block_self : (page block : ℕ) → same_block (some (page, block)) page block ≡ true
same_block_self page block = ground arith

repeated :
    (s : T30) (x : Bool) (fcf2 page block count : ℕ)
    → s.rx.acked ≡ some (page, block)
    → s.rx.last_resp_fcf ≡ Fcf.mcf
    → Repeated s (ecm_process_pps s (pps_frame x fcf2 page block count))
unfolding ecm_process_pps reack tx_v21_frames
repeated s x fcf2 page block count acked answered =
    let known : same_block s.rx.acked page block ≡ true = rw acked (same_block_self page block) in
    rw (known, answered)
      (record {
        page_kept = refl;
        slots_kept = refl;
        size_kept = refl;
        written_kept = refl;
        replying = refl;
        returns = refl;
        replied = (_, refl);
      })

-- A receiver that listens, and that has just acknowledged a block with MCF, answers a repeated PPS
-- for that block with another MCF; it does not put the block on the page twice, nor ask for it.
pub on_hdlc-Repeated :
    (o : Outside) (s : T30) (x : Bool) (fcf2 page block count : ℕ)
    → IsListening s.substate
    → s.rx.acked ≡ some (page, block)
    → s.rx.last_resp_fcf ≡ Fcf.mcf
    → Repeated s (on_hdlc o s (pps_frame x fcf2 page block count) true)
on_hdlc-Repeated o s x fcf2 page block count at acked answered =
    let h = repeated (record s { timeout = 0 }) x fcf2 page block count acked answered in
    subst (Repeated s) (sym (pps_handled o [] 0 0 page block s x fcf2 count at)) (record {
      page_kept = h.page_kept;
      slots_kept = h.slots_kept;
      size_kept = h.size_kept;
      written_kept = h.written_kept;
      replying = h.replying;
      returns = h.returns;
      replied = h.replied;
    })
