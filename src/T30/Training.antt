-- ===== src/T30/Training.antt =====
-- The training check of nf_t30.c: the bits that the sender gives and what the receiver makes of
-- the bits that arrive.
use Prim.Native.Nat.{max}
use nospandsp_fax.Common.{ℕ, zero, suc, ◌+◌, ◌≡◌, refl, arith, ap, sym, ◌∙◌}
use nospandsp_fax.Common.{Bool, true, false, List, [], ◌∷◌, ltb, leb, ◌==◌}
use nospandsp_fax.Common.{if◌then◌else◌}
use mathlib.Core.Path.{subst}
use nospandsp_fax.T30.Fcf
use nospandsp_fax.T30.State.{
  T30, Outside, Substate, send_hdlc, a_recv_tcf, a_recv_image, a_send_cfr, a_send_ftt, carrier_down,
}
use nospandsp_fax.T30.Control.{tx_v21_frames, simple_frame}
use nospandsp_fax.T30.Pages.{tcf_bit, image_bit}
use nospandsp_fax.T30.Status.{on_status, carrier_lost, eval_tcf}
use nospandsp_fax.T30.Engine.{on_put_bit}

-- The longest run of zeros in a list of bits, of which `run` have come already.
abbrev pub longest_run : ℕ → List ℕ → ℕ
longest_run run [] = run
longest_run run (b ∷ bits) =
    let on = longest_run (run + 1) bits in
    let over = longest_run 0 bits in if b == 0 then on else max run over

abbrev pub put_all : T30 → List ℕ → T30
put_all s [] = s
put_all s (b ∷ bits) = put_all (on_put_bit s b) bits

-- The longest run that the receiver knows of.
abbrev known_run : T30 → List ℕ → ℕ
known_run s bits = max s.recv.tcf_most (longest_run s.recv.tcf_zeros bits)

on_put_bit-tcf_bit : (s : T30) (b : ℕ) → s.substate ≡ a_recv_tcf → on_put_bit s b ≡ tcf_bit s b
unfolding on_put_bit
on_put_bit-tcf_bit s b at =
    ap
      (λ (u : Substate). elim u as (λ _. T30) [
        | a_recv_tcf ↦ tcf_bit s b
        | a_recv_image ↦ image_bit s b
        | _ ↦ s
      ])
      at

greater_of :
    (most run rest : ℕ) → max (if ltb most run then run else most) rest ≡ max most (max run rest)
greater_of most run rest = ground arith

tcf_bit_lem :
    (s : T30) (b : ℕ) (bits : List ℕ)
    → (tcf_bit s b ≡ record s { recv = (tcf_bit s b).recv })
      × (known_run (tcf_bit s b) bits ≡ known_run s (b ∷ bits))
unfolding tcf_bit
tcf_bit_lem s zero bits = (refl, refl)
tcf_bit_lem s (suc b) bits =
    let set_bit : (suc b == 0) ≡ false = ground arith in
    rw set_bit (refl, greater_of s.recv.tcf_most s.recv.tcf_zeros (longest_run 0 bits))

-- The bits change nothing but the runs.
put_all_lem :
    (s : T30) (bits : List ℕ)
    → s.substate ≡ a_recv_tcf
    → (put_all s bits ≡ record s { recv = (put_all s bits).recv })
      × (max (put_all s bits).recv.tcf_most (put_all s bits).recv.tcf_zeros ≡ known_run s bits)
put_all_lem s [] at = (refl, refl)
put_all_lem s (b ∷ bits) at =
    let one = on_put_bit-tcf_bit s b at in
    let (kept, known) = tcf_bit_lem s b bits in
    let all : on_put_bit s b ≡ record s { recv = (on_put_bit s b).recv } =
      one ∙ kept ∙ ap (λ (t : T30). record s { recv = t.recv }) (sym one) in
    let (kept', known') =
      put_all_lem (on_put_bit s b) bits (ap (λ (t : T30). t.substate) all ∙ at) in
    (
      kept' ∙ ap (λ (t : T30). record t { recv = (put_all (on_put_bit s b) bits).recv }) all,
      known' ∙ (ap (λ (t : T30). known_run t bits) one ∙ known),
    )

-- The frame of a verdict, and the wait that follows it.
abbrev pub verdict_fcf : Bool → ℕ
verdict_fcf b = if b then Fcf.cfr else Fcf.ftt

abbrev pub after_verdict : Bool → Substate
after_verdict b = if b then a_send_cfr else a_send_ftt

-- What `eval_tcf` decides, by the longest run of zeros that it knows of.
eval_tcf_lem :
    (s : T30) (b : Bool)
    → leb s.neg.bit_rate (max s.recv.tcf_most s.recv.tcf_zeros) ≡ b
    → ((eval_tcf s).substate ≡ after_verdict b)
      × ((eval_tcf s).calls
          ≡ send_hdlc (simple_frame s.dis_received (verdict_fcf b)) ∷ (tx_v21_frames s).calls)
unfolding eval_tcf tx_v21_frames
eval_tcf_lem s true e =
    let longest : (if ltb s.recv.tcf_most s.recv.tcf_zeros
          then s.recv.tcf_zeros
          else s.recv.tcf_most)
        ≡ max s.recv.tcf_most s.recv.tcf_zeros =
      ground arith in
    rw (longest, e) (refl, refl)
eval_tcf_lem s false e =
    let longest : (if ltb s.recv.tcf_most s.recv.tcf_zeros
          then s.recv.tcf_zeros
          else s.recv.tcf_most)
        ≡ max s.recv.tcf_most s.recv.tcf_zeros =
      ground arith in
    rw (longest, e) (refl, refl)

-- When the carrier of a training check ends, it is confirmed with a CFR if the longest run of zeros
-- among its bits, or the one known before, lasts for a second at the rate agreed on, and else
-- refused with an FTT.
pub carrier_down-put_all :
    (o : Outside) (s : T30) (bits : List ℕ)
    → s.substate ≡ a_recv_tcf
    → (let good = leb s.neg.bit_rate (max s.recv.tcf_most (longest_run s.recv.tcf_zeros bits)) in
        let t = on_status o (put_all s bits) carrier_down in
        (t.substate ≡ after_verdict good)
        × (t.calls
            ≡ send_hdlc (simple_frame s.dis_received (verdict_fcf good)) ∷ (tx_v21_frames s).calls))
unfolding on_status carrier_lost tx_v21_frames
carrier_down-put_all o s bits at =
    let (kept, known) = put_all_lem s bits at in
    let recv' = (put_all s bits).recv in
    let good = leb s.neg.bit_rate (known_run s bits) in
    let heard = record s { recv = recv' } in
    let same : on_status o (put_all s bits) carrier_down ≡ eval_tcf heard =
      ap (λ (t : T30). carrier_lost t.substate t) kept
      ∙ ap (λ (u : Substate). carrier_lost u heard) at in
    subst
      (λ (t : T30).
        (t.substate ≡ after_verdict good)
        × (t.calls
            ≡ send_hdlc (simple_frame s.dis_received (verdict_fcf good)) ∷ (tx_v21_frames s).calls))
      (sym same) (eval_tcf_lem heard good (ap (leb s.neg.bit_rate) known))
