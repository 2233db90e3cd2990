-- ===== src/Hdlc/Octets.antt =====
-- The data bits that the receiver of nf_hdlc.c takes, without the line history that only tells it
-- which bits are data, and the octets it makes of them.
use nospandsp_fax.Common.{
  bit_or-zero_octet, ap, append-nil, append_assoc, length-append, ℕ, zero, suc, ◌+◌, ◌*◌, ◌/◌, ◌%◌,
  ◌^◌, ◌≤◌, ◌<◌, ◌≡◌, refl, arith,
}
use nospandsp_fax.Common.{List, [], ◌∷◌, ◌++◌, bit, bit_and, bit_or, or_fields}
use nospandsp_fax.Common.{length, data_bits, octet_bits, All, IsByte}
use nospandsp_fax.Hdlc.Rx.{HdlcRx, data_bit, store_octet}

-- A run of data bits; the history is cut down to the newest bit.
unfoldable pub take_bits : HdlcRx → List ℕ → HdlcRx
take_bits s [] = s
take_bits s (b ∷ bs) = take_bits (data_bit (record s { raw = b * 256 })) bs

-- A bit enters the octet in progress at the top.
shift_in : (t b : ℕ) → t < 256 → b < 2 → bit_or t (b * 256) / 2 ≡ t / 2 + b * 128
shift_in t zero lt two = rw (bit_or-zero_octet t lt) (omega arith)
shift_in t (suc zero) lt two =
    let split : bit_or (0 * 2 ^ 8 + t) (1 * 2 ^ 8 + 0) ≡ bit_or 0 1 * 2 ^ 8 + bit_or t 0 =
      or_fields 8 0 1 t 0 (omega arith) (omega arith) in
    let low : 0 * 2 ^ 8 + t ≡ t = omega arith in
    let high : 1 * 2 ^ 8 + 0 ≡ 1 * 256 = refl in
    omega (arith, rw (low, high, bit_or-zero_octet t lt) at split)
shift_in t (suc (suc b)) lt two = absurd (omega arith)

pub newest_only : (b : ℕ) → b < 2 → bit_and (b * 256) 0x100 ≡ b * 256
newest_only zero h = refl
newest_only (suc zero) h = refl
newest_only (suc (suc b)) h = absurd (omega arith)

-- A data bit that does not complete an octet.
data_bit_within :
    (s : HdlcRx) (b : ℕ)
    → s.framing_ok_threshold ≤ s.flags_seen
    → s.num_bits < 7
    → s.byte_in_progress < 256
    → b < 2
    → data_bit (record s { raw = b * 256 }) ≡ record s {
      raw = b * 256;
      num_bits = s.num_bits + 1;
      byte_in_progress = s.byte_in_progress / 2 + b * 128;
    }
unfolding data_bit
data_bit_within s b synced few lt two =
    rw (newest_only b two, shift_in s.byte_in_progress b lt two) (ground (arith, synced, few))

-- The data bit that completes an octet.
data_bit_last :
    (s : HdlcRx) (b : ℕ)
    → s.framing_ok_threshold ≤ s.flags_seen
    → s.num_bits ≡ 7
    → length s.buffer < 402
    → s.byte_in_progress < 256
    → b < 2
    → data_bit (record s { raw = b * 256 }) ≡ record s {
      raw = b * 256;
      num_bits = 0;
      byte_in_progress = s.byte_in_progress / 2 + b * 128;
      buffer = s.buffer ++ ((s.byte_in_progress / 2 + b * 128) ∷ []);
    }
unfolding data_bit store_octet
data_bit_last s b synced full room lt two =
    let small : (s.byte_in_progress / 2 + b * 128) % 256 ≡ s.byte_in_progress / 2 + b * 128 =
      omega arith in
    rw (newest_only b two, shift_in s.byte_in_progress b lt two)
      (rw (full, small) (ground (arith, synced, room)))

-- The state with `n` bits of the octet in progress taken, `t` in it, and the newest bit `b`.
abbrev pub building : HdlcRx → ℕ → ℕ → ℕ → HdlcRx
building s n t b = record s { raw = b * 256; num_bits = n; byte_in_progress = t }

-- The octet `x` complete.
abbrev pub with_octet : HdlcRx → ℕ → HdlcRx
with_octet s x = record s {
  raw = bit x 7 * 256;
  num_bits = 0;
  byte_in_progress = x;
  buffer = s.buffer ++ (x ∷ []);
}

-- Eight data bits are an octet, lowest bit first, whatever was in progress before.
take_bits_octet :
    (s : HdlcRx) (x : ℕ) (bs : List ℕ)
    → s.framing_ok_threshold ≤ s.flags_seen
    → s.num_bits ≡ 0
    → length s.buffer < 402
    → s.byte_in_progress < 256
    → x < 256
    → take_bits s (octet_bits x ++ bs) ≡ take_bits (with_octet s x) bs
unfolding take_bits
take_bits_octet s x bs synced fresh room lt octet =
    let t0 = s.byte_in_progress in
    let t1 = t0 / 2 + bit x 0 * 128 in
    let t2 = t1 / 2 + bit x 1 * 128 in
    let t3 = t2 / 2 + bit x 2 * 128 in
    let t4 = t3 / 2 + bit x 3 * 128 in
    let t5 = t4 / 2 + bit x 4 * 128 in
    let t6 = t5 / 2 + bit x 5 * 128 in
    let t7 = t6 / 2 + bit x 6 * 128 in
    let whole : t7 / 2 + bit x 7 * 128 ≡ x = omega arith in
    rw (
      data_bit_within s (bit x 0) synced (omega arith) lt (omega arith),
      fresh,
      data_bit_within (building s 1 t1 (bit x 0)) (bit x 1) synced (omega arith) (omega arith)
          (omega arith),
      data_bit_within (building s 2 t2 (bit x 1)) (bit x 2) synced (omega arith) (omega arith)
          (omega arith),
      data_bit_within (building s 3 t3 (bit x 2)) (bit x 3) synced (omega arith) (omega arith)
          (omega arith),
      data_bit_within (building s 4 t4 (bit x 3)) (bit x 4) synced (omega arith) (omega arith)
          (omega arith),
      data_bit_within (building s 5 t5 (bit x 4)) (bit x 5) synced (omega arith) (omega arith)
          (omega arith),
      data_bit_within (building s 6 t6 (bit x 5)) (bit x 6) synced (omega arith) (omega arith)
          (omega arith),
      data_bit_last (building s 7 t7 (bit x 6)) (bit x 7) synced refl room (omega arith)
          (omega arith),
      whole,
    )

-- The receiver is synchronised, at an octet boundary, and has taken `octets` of the frame.
pub record Collects (s : HdlcRx) (octets : List ℕ) : Type 0 where
  pub synced : s.framing_ok_threshold ≤ s.flags_seen
  pub fresh : s.num_bits ≡ 0
  pub part : s.byte_in_progress < 256
  pub got : s.buffer ≡ octets

pub take_bits-Collects :
    (xs : List ℕ) (s : HdlcRx) (octets : List ℕ)
    → Collects s octets
    → length octets + length xs ≤ 402
    → All IsByte xs
    → Collects (take_bits s (data_bits xs)) (octets ++ xs)
take_bits-Collects [] s octets c room bytes = rw (append-nil octets) (unfold take_bits in c)
take_bits-Collects (x ∷ xs) s octets c room (byte, bytes) =
    let more : Collects (with_octet s x) (octets ++ (x ∷ [])) = record {
      synced = c.synced;
      fresh = refl;
      part = byte;
      got = ap (λ (b : List ℕ). b ++ (x ∷ [])) c.got;
    } in
    let rest =
      take_bits-Collects xs (with_octet s x) (octets ++ (x ∷ [])) more
        (omega (arith, length-append octets (x ∷ []))) bytes in
    rw
      (take_bits_octet s x (data_bits xs) c.synced c.fresh (omega (arith, ap length c.got)) c.part
        byte)
      (rw (append_assoc octets (x ∷ []) xs) at rest)

-- Seven data bits from an octet boundary, all within the octet in progress.
module _ (s : HdlcRx) (b0 b1 b2 b3 b4 b5 b6 : ℕ) (small : (b0 < 2) × (b1 < 2) × (b2 < 2) × (b3 < 2))
    (small' : (b4 < 2) × (b5 < 2) × (b6 < 2)) where
  seven : ℕ
  seven =
      let t3 = ((s.byte_in_progress / 2 + b0 * 128) / 2 + b1 * 128) / 2 + b2 * 128 in
      (((t3 / 2 + b3 * 128) / 2 + b4 * 128) / 2 + b5 * 128) / 2 + b6 * 128

  take_bits-seven :
      s.framing_ok_threshold ≤ s.flags_seen
      → s.num_bits ≡ 0
      → s.byte_in_progress < 256
      → take_bits s (b0 ∷ b1 ∷ b2 ∷ b3 ∷ b4 ∷ b5 ∷ b6 ∷ []) ≡ building s 7 seven b6
  unfolding take_bits seven
  take_bits-seven synced fresh lt =
      let t1 = s.byte_in_progress / 2 + b0 * 128 in
      let t2 = t1 / 2 + b1 * 128 in
      let t3 = t2 / 2 + b2 * 128 in
      let t4 = t3 / 2 + b3 * 128 in
      let t5 = t4 / 2 + b4 * 128 in
      let t6 = t5 / 2 + b5 * 128 in
      rw (
        data_bit_within s b0 synced (omega arith) lt small.0,
        fresh,
        data_bit_within (building s 1 t1 b0) b1 synced (omega arith) (omega arith) (omega arith),
        data_bit_within (building s 2 t2 b1) b2 synced (omega arith) (omega arith) (omega arith),
        data_bit_within (building s 3 t3 b2) b3 synced (omega arith) (omega arith) (omega arith),
        data_bit_within (building s 4 t4 b3) b4 synced (omega arith) (omega arith) (omega arith),
        data_bit_within (building s 5 t5 b4) b5 synced (omega arith) (omega arith) (omega arith),
        data_bit_within (building s 6 t6 b5) b6 synced (omega arith) (omega arith) (omega arith),
      )

-- The seven bits of a flag that the receiver takes before it knows that it is one.
pub take_bits_flag :
    (s : HdlcRx) (octets : List ℕ)
    → Collects s octets
    → (t : ℕ) × (t < 256) × (take_bits s (0 ∷ 1 ∷ 1 ∷ 1 ∷ 1 ∷ 1 ∷ 1 ∷ []) ≡ building s 7 t 1)
take_bits_flag s octets c = (
  seven s 0 1 1 1 1 1 1 (omega arith) (omega arith),
  unfold seven in omega (arith, c.part),
  take_bits-seven s 0 1 1 1 1 1 1 (omega arith) (omega arith) c.synced c.fresh c.part,
)
