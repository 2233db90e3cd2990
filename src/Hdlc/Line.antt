-- ===== src/Hdlc/Line.antt =====
-- The receiver's bit history: `raw` is 256 times the last eight line bits, the newest lowest.
-- Tables over all histories turn the masks of `nf_hdlc_rx_put_bit` into tests on the history.
use nospandsp_fax.Common.{
  ℕ, zero, suc, ◌+◌, ◌*◌, ◌/◌, ◌%◌, ◌<◌, ◌≡◌, refl, arith, Bool, true, false,
}
use nospandsp_fax.Common.{[], bit_and, bit_or, u16, ◌==◌, ==_iff, ◌&&◌, not, if◌then◌else◌}
use nospandsp_fax.Common.{all_below, all_below_sound}
use nospandsp_fax.Hdlc.Rx.{HdlcRx, put_bit, data_bit, flag_or_abort}

-- The history after one more bit.
abbrev pub shifted : ℕ → ℕ → ℕ
shifted h b = (h * 2 + b) % 256

abbrev raw_after : ℕ → ℕ → ℕ
raw_after h b = u16 (bit_or (h * 256 * 2) (bit_and (b * 256) 0x100))

same : Bool → Bool → Bool
same true b = b
same false b = not b

same_sound : (a b : Bool) → same a b ≡ true → a ≡ b
unfolding same
same_sound true b e = ground arith
same_sound false b e = ground arith

-- A test that holds at every history and both bits.
both_bits : (ℕ → ℕ → Bool) → ℕ → Bool
both_bits p h = p h 0 && p h 1

every_history :
    (p : ℕ → ℕ → Bool)
    → all_below 256 (both_bits p) ≡ true
    → (h b : ℕ) → h < 256
    → b < 2
    → p h b ≡ true
unfolding both_bits
every_history p table h zero lt bl = ground (arith, all_below_sound 256 (both_bits p) h table lt)
every_history p table h (suc zero) lt bl =
    ground (arith, all_below_sound 256 (both_bits p) h table lt)
every_history p table h (suc (suc b)) lt bl = absurd (omega arith)

raw_after_lem : (h b : ℕ) → h < 256 → b < 2 → raw_after h b ≡ shifted h b * 256
raw_after_lem h b lt bl = (==_iff _ _).0 (
    every_history (λ h b. raw_after h b == shifted h b * 256) (unfold all_below both_bits in refl) h
      b lt bl)

five_ones :
    (h b : ℕ) → h < 256 → b < 2 → (bit_and (shifted h b * 256) 0x3E00 == 0x3E00) ≡ (h % 32 == 31)
five_ones h b lt bl = same_sound _ _ (
    every_history (λ h b. same (bit_and (shifted h b * 256) 0x3E00 == 0x3E00) (h % 32 == 31))
      (unfold all_below both_bits same in refl) h b lt bl)

destuffs :
    (h b : ℕ)
    → h < 256
    → b < 2
    → (bit_and (shifted h b * 256) 0x4100 == 0) ≡ (b == 0 && h / 32 % 2 == 0)
destuffs h b lt bl = same_sound _ _ (
    every_history
      (λ h b. same (bit_and (shifted h b * 256) 0x4100 == 0) (b == 0 && h / 32 % 2 == 0))
      (unfold all_below both_bits same in refl) h b lt bl)

six_ones :
    (h b : ℕ) → h < 256 → b < 2 → (bit_and (shifted h b * 256) 0xFE00 == 0x7E00) ≡ (h % 128 == 63)
six_ones h b lt bl = same_sound _ _ (
    every_history (λ h b. same (bit_and (shifted h b * 256) 0xFE00 == 0x7E00) (h % 128 == 63))
      (unfold all_below both_bits same in refl) h b lt bl)

pub newest : (h b : ℕ) → h < 256 → b < 2 → bit_and (shifted h b * 256) 0x100 ≡ b * 256
newest h b lt bl = (==_iff _ _).0 (
    every_history (λ h b. bit_and (shifted h b * 256) 0x100 == b * 256)
      (unfold all_below both_bits in refl) h b lt bl)

-- The state with its new history.
abbrev pub heard : HdlcRx → ℕ → ℕ → HdlcRx
heard s h b = record s { raw = shifted h b * 256 }

-- `nf_hdlc_rx_put_bit`, by the history: behind five ones comes a stuffed zero, the end of a flag
-- or of an abort, or data; anything else is data.
pub put_bit_lem :
    (s : HdlcRx) (h b : ℕ)
    → h < 256
    → b < 2
    → s.raw ≡ h * 256
    → put_bit s b ≡ (
        if h % 32 == 31
        then (if b == 0 && h / 32 % 2 == 0
            then (heard s h b, [])
            else if h % 128 == 63
            then flag_or_abort (heard s h b)
            else (data_bit (heard s h b), []))
        else (data_bit (heard s h b), []))
put_bit_lem s h b lt bl e =
    unfold put_bit in
    simp (e, raw_after_lem h b lt bl, five_ones h b lt bl, destuffs h b lt bl, six_ones h b lt bl)
