-- ===== src/Hdlc/Destuffing.antt =====
-- The receiver of nf_hdlc.c on a stuffed line: exactly the bits before the stuffing reach
-- `data_bit`, and a flag behind them is recognised.
use nospandsp_fax.Common.{
  ℕ, zero, suc, ◌+◌, ◌*◌, ◌/◌, ◌%◌, ◌^◌, ◌<◌, ◌≡◌, refl, ap, sym, arith, ◌∙◌, true, false,
}
use nospandsp_fax.Common.{List, [], ◌∷◌, ◌==◌, inl, inr, ◌⊎◌, All, Bool-cases, ◌&&◌}
use nospandsp_fax.Hdlc.Rx.{HdlcRx, put_bit, put_bits, data_bit, store_octet}
use nospandsp_fax.Hdlc.Line.{shifted, heard, newest, put_bit_lem}
use nospandsp_fax.Hdlc.Stuffing.{stuffed}
use nospandsp_fax.Hdlc.Octets.{take_bits, newest_only}

-- The history does not matter once a bit is known to be data.
data_bit-heard :
    (s : HdlcRx) (h b : ℕ)
    → h < 256
    → b < 2
    → data_bit (heard s h b)
      ≡ record (data_bit (record s { raw = b * 256 })) { raw = shifted h b * 256 }
unfolding data_bit store_octet
data_bit-heard s h b lt two = rw (newest h b lt two, newest_only b two) (ground arith)

take_bits_raw :
    (s : HdlcRx) (r q : ℕ) (bits : List ℕ)
    → record (take_bits (record s { raw = r }) bits) { raw = q }
      ≡ record (take_bits s bits) { raw = q }
unfolding take_bits
take_bits_raw s r q [] = refl
take_bits_raw s r q (b ∷ bs) = refl

-- A bit is data behind anything but five ones, and a one is data behind exactly five.
pub put_bit_data :
    (s : HdlcRx) (h b : ℕ)
    → h < 256
    → b < 2
    → s.raw ≡ h * 256
    → ((h % 32 == 31) ≡ false) ⊎ ((h % 64 ≡ 31) × (b ≡ 1))
    → put_bit s b ≡ (record (data_bit (record s { raw = b * 256 })) { raw = shifted h b * 256 }, [])
put_bit_data s h b lt two at (inl other) =
    put_bit_lem s h b lt two at ∙ rw (other, data_bit-heard s h b lt two)
put_bit_data s h b lt two at (inr (five, one)) =
    let run : (h % 32 == 31) ≡ true = ground (arith, five) in
    let stays : (b == 0 && h / 32 % 2 == 0) ≡ false = ground (arith, one) in
    let short : (h % 128 == 63) ≡ false = ground (arith, five) in
    put_bit_lem s h b lt two at ∙ rw (run, stays, short, data_bit-heard s h b lt two)

-- The zero behind exactly five ones is dropped.
put_bit_stuffed :
    (s : HdlcRx) (h : ℕ) → h < 256 → s.raw ≡ h * 256 → h % 64 ≡ 31 → put_bit s 0 ≡ (heard s h 0, [])
put_bit_stuffed s h lt at five =
    let run : (h % 32 == 31) ≡ true = ground (arith, five) in
    let drops : (h / 32 % 2 == 0) ≡ true = ground (arith, five) in
    put_bit_lem s h 0 lt (omega arith) at ∙ rw (run, drops)

-- The line `line` brought the data bits `bits` and no event; its last bits are a zero and then
-- fewer than five ones.
pub record Took (s : HdlcRx) (line bits : List ℕ) : Type 0 where
  pub h : ℕ
  pub octet : h < 256
  pub settled : (h % 32 == 31) ≡ false
  pub came : put_bits s line ≡ (record (take_bits s bits) { raw = h * 256 }, [])

pub put_bits-cons :
    (s : HdlcRx) (h b q : ℕ) (line bits : List ℕ)
    → put_bit s b ≡ (record (data_bit (record s { raw = b * 256 })) { raw = shifted h b * 256 }, [])
    → put_bits (record (data_bit (record s { raw = b * 256 })) { raw = shifted h b * 256 }) line ≡ (
      record (take_bits
          (record (data_bit (record s { raw = b * 256 })) { raw = shifted h b * 256 })
          bits) { raw = q },
      [],
    )
    → put_bits s (b ∷ line) ≡ (record (take_bits s (b ∷ bits)) { raw = q }, [])
unfolding put_bits take_bits
put_bits-cons s h b q line bits step rest =
    rw (step, rest)
      (ap (λ (t : HdlcRx). (t, []))
        (take_bits_raw (data_bit (record s { raw = b * 256 })) _ q bits))

Took-cons :
    (s : HdlcRx) (h b : ℕ) (line bits : List ℕ)
    → put_bit s b ≡ (record (data_bit (record s { raw = b * 256 })) { raw = shifted h b * 256 }, [])
    → Took (record (data_bit (record s { raw = b * 256 })) { raw = shifted h b * 256 }) line bits
    → Took s (b ∷ line) (b ∷ bits)
Took-cons s h b line bits step rest = record {
  h = rest.h;
  octet = rest.octet;
  settled = rest.settled;
  came = put_bits-cons s h b (rest.h * 256) line bits step rest.came;
}

Took-stuffed :
    (s : HdlcRx) (h : ℕ) (line bits : List ℕ)
    → put_bit s 0 ≡ (heard s h 0, [])
    → Took (heard s h 0) line bits
    → Took s (0 ∷ line) bits
Took-stuffed s h line bits step rest = record {
  h = rest.h;
  octet = rest.octet;
  settled = rest.settled;
  came =
      unfold put_bits in
      rw (step, rest.came) (ap (λ (t : HdlcRx). (t, [])) (take_bits_raw s _ (rest.h * 256) bits));
}

-- The history ends in a zero and then `ones` ones.
abbrev pub Run : ℕ → ℕ → Type 0
Run h ones = h % 2 ^ (ones + 1) + 1 ≡ 2 ^ ones

pub Run-settled : (ones h : ℕ) → ones < 5 → Run h ones → (h % 32 == 31) ≡ false
Run-settled zero h few run = ground (arith, run)
Run-settled (suc zero) h few run = ground (arith, run)
Run-settled (suc (suc zero)) h few run = ground (arith, run)
Run-settled (suc (suc (suc zero))) h few run = ground (arith, run)
Run-settled (suc (suc (suc (suc zero)))) h few run = ground (arith, run)
Run-settled (suc (suc (suc (suc (suc n))))) h few run = absurd (omega arith)

pub Run-longer : (ones h : ℕ) → ones < 5 → Run h ones → Run (shifted h 1) (ones + 1)
Run-longer zero h few run = omega arith
Run-longer (suc zero) h few run = omega arith
Run-longer (suc (suc zero)) h few run = omega arith
Run-longer (suc (suc (suc zero))) h few run = omega arith
Run-longer (suc (suc (suc (suc zero)))) h few run = omega arith
Run-longer (suc (suc (suc (suc (suc n))))) h few run = absurd (omega arith)

abbrev pub IsBit : ℕ → Type 0
IsBit b = b < 2

-- Whatever bits are stuffed, the receiver takes exactly those.
pub stuffed-Took :
    (bits : List ℕ) (s : HdlcRx) (h ones : ℕ)
    → All IsBit bits
    → s.raw ≡ h * 256
    → h < 256
    → ones < 5
    → Run h ones
    → Took s (stuffed ones bits) bits
unfolding stuffed
stuffed-Took [] s h ones small at lt few run = record {
  h = h;
  octet = lt;
  settled = Run-settled ones h few run;
  came = unfold put_bits take_bits in rw (sym at) refl;
}
stuffed-Took (zero ∷ bs) s h ones (b, small) at lt few run =
    Took-cons s h 0 _ bs (put_bit_data s h 0 lt b at (inl (Run-settled ones h few run)))
      (stuffed-Took bs _ (shifted h 0) 0 small refl (omega arith) (omega arith) (omega arith))
stuffed-Took (suc zero ∷ bs) s h ones (b, small) at lt few run =
    let step = put_bit_data s h 1 lt b at (inl (Run-settled ones h few run)) in
    let longer = Run-longer ones h few run in
    elim (Bool-cases (ones + 1 == 5)) [
      | inl five ↦
          let ended : ones ≡ 4 = ground (arith, five) in
          let full : shifted h 1 % 64 ≡ 31 = omega (arith, rw ended at longer) in
          rw five (
            Took-cons s h 1 _ bs step (
              Took-stuffed _ (shifted h 1) _ bs
                (put_bit_stuffed _ (shifted h 1) (omega arith) refl full)
                (stuffed-Took bs _ (shifted (shifted h 1) 0) 0 small refl (omega arith)
                  (omega arith) (omega arith))))
      | inr more ↦ rw more (
          Took-cons s h 1 _ bs step (
            stuffed-Took bs _ (shifted h 1) (ones + 1) small refl (omega arith)
              (ground (arith, more)) longer))
    ]
stuffed-Took (suc (suc b) ∷ bs) s h ones (small, rest) at lt few run = absurd (omega arith)
