-- ===== src/Hdlc/Crc.antt =====
-- The CRC-16/X.25 of nf_hdlc.c. The table that `crc_init` fills once is the function `crc_table`.
use nospandsp_fax.Common.{ℕ, zero, suc, ◌+◌, ◌*◌, ◌/◌, ◌%◌, ◌^◌, ◌<◌, ◌≡◌, refl, ◌∙◌, arith}
use nospandsp_fax.Common.{
  List, [], ◌∷◌, ◌++◌, bit_xor, xor_fields, u8, u16, bit, low_bits, ◌==◌, ==_iff,
}
use nospandsp_fax.Common.{if◌then◌else◌, all_below, all_below_sound}

-- `(c & 1) ? (c >> 1) ^ 0x8408 : (c >> 1)`
unfoldable pub crc_shift : ℕ → ℕ
crc_shift c = if bit c 0 == 1 then bit_xor (c / 2) 0x8408 else c / 2

crc_shifts : ℕ → ℕ → ℕ
crc_shifts zero c = c
crc_shifts (suc n) c = crc_shifts n (crc_shift c)

-- `crc_table[i]` after `crc_init`
unfoldable pub crc_table : ℕ → ℕ
unfolding crc_shifts crc_shift
crc_table i = crc_shifts 8 (u16 i)

-- One round of the loop of `nf_crc16`.
unfoldable pub crc_step : ℕ → ℕ → ℕ
unfolding crc_table
crc_step crc octet = u16 (bit_xor (crc / 256) (crc_table (low_bits (bit_xor crc octet) 8)))

-- `nf_crc16`
unfoldable pub crc16 : List ℕ → ℕ → ℕ
crc16 [] crc = crc
crc16 (b ∷ bs) crc = crc16 bs (crc_step crc b)

-- The two octets that `nf_hdlc_tx_frame` appends, low octet first.
unfoldable pub fcs : List ℕ → List ℕ
fcs payload = let crc = bit_xor (crc16 payload 0xFFFF) 0xFFFF in u8 crc ∷ u8 (crc / 256) ∷ []

crc_check : crc16 (49 ∷ 50 ∷ 51 ∷ 52 ∷ 53 ∷ 54 ∷ 55 ∷ 56 ∷ 57 ∷ []) 0xFFFF ≡ 0x6F91
unfolding crc16 crc_step
crc_check = refl

-- The last two rounds over the complemented register, whatever it holds.
residue : ℕ → ℕ
residue c = crc_step (crc_step c (u8 (bit_xor c 0xFFFF))) (u8 (bit_xor c 0xFFFF / 256))

-- Complementing the register makes the table index of the next round 0xFF.
complement_low : (l : ℕ) → l < 256 → low_bits (bit_xor l (low_bits (bit_xor l 255) 8)) 8 ≡ 255
complement_low l h = (==_iff _ _).0 (
    all_below_sound 256 (λ l. low_bits (bit_xor l (low_bits (bit_xor l 255) 8)) 8 == 255) l
      (unfold all_below in refl) h)

complement_high : (h : ℕ) → h < 256 → u8 (bit_xor h 255) ≡ bit_xor h 255
complement_high h lt =
    (==_iff _ _).0 (
      all_below_sound 256 (λ h. u8 (bit_xor h 255) == bit_xor h 255) h (unfold all_below in refl)
        lt)

last_round : (h : ℕ) → h < 256 → crc_step (u16 (bit_xor h (crc_table 255))) (bit_xor h 255) ≡ 0xF0B8
last_round h lt = (==_iff _ _).0 (
    all_below_sound 256 (λ h. crc_step (u16 (bit_xor h (crc_table 255))) (bit_xor h 255) == 0xF0B8)
      h (unfold all_below crc_step in refl) lt)

module _ (c : ℕ) (c_lt : c < 65536) where
  complement : bit_xor c 0xFFFF ≡ bit_xor (c / 256) 255 * 256 + bit_xor (c % 256) 255
  complement =
      let parts : c / 256 * 2 ^ 8 + c % 256 ≡ c = omega arith in
      rw parts at (xor_fields 8 (c / 256) 255 (c % 256) 255 (omega arith) (omega arith))

  low_octet : u8 (bit_xor c 0xFFFF) ≡ low_bits (bit_xor (c % 256) 255) 8
  low_octet = rw complement (omega arith)

  high_octet : u8 (bit_xor c 0xFFFF / 256) ≡ bit_xor (c / 256) 255
  high_octet = rw complement (
      omega
        (arith, complement_high (c / 256) (omega arith), complement_high (c % 256) (omega arith)))

  first_index : low_bits (bit_xor c (u8 (bit_xor c 0xFFFF))) 8 ≡ 255
  first_index =
      let m = low_bits (bit_xor (c % 256) 255) 8 in
      let parts : c / 256 * 2 ^ 8 + c % 256 ≡ c = omega arith in
      let alone : 0 * 2 ^ 8 + m ≡ m = omega arith in
      let split =
        rw (parts, alone) at (xor_fields 8 (c / 256) 0 (c % 256) m (omega arith) (omega arith)) in
      rw low_octet (omega (arith, split, complement_low (c % 256) (omega arith)))

  residue-eq : residue c ≡ 0xF0B8
  unfolding residue
  residue-eq = rw (first_crc, high_octet) (last_round (c / 256) (omega arith))
    where
      first_crc : crc_step c (u8 (bit_xor c 0xFFFF)) ≡ u16 (bit_xor (c / 256) (crc_table 255))
      first_crc = unfold crc_step in rw first_index

crc16-append : (xs ys : List ℕ) (crc : ℕ) → crc16 (xs ++ ys) crc ≡ crc16 ys (crc16 xs crc)
unfolding crc16
crc16-append [] ys crc = refl
crc16-append (x ∷ xs) ys crc = crc16-append xs ys (crc_step crc x)

crc16-lt : (xs : List ℕ) (crc : ℕ) → crc < 65536 → crc16 xs crc < 65536
unfolding crc16 crc_step
crc16-lt [] crc h = h
crc16-lt (x ∷ xs) crc h = crc16-lt xs _ (omega arith)

-- The receiver's test holds of every frame that the sender closes: the register over any payload
-- and its two check octets ends in the good residue 0xF0B8.
pub crc16-fcs : (payload : List ℕ) → crc16 (payload ++ fcs payload) 0xFFFF ≡ 0xF0B8
unfolding fcs
crc16-fcs payload =
    crc16-append payload _ 0xFFFF
    ∙ unfold crc16 residue in
      residue-eq (crc16 payload 0xFFFF) (crc16-lt payload 0xFFFF (omega arith))
