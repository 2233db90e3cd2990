-- ===== src/G711.antt =====
-- g711.c: A-law companding. A C `int` is `from_zero n` or `below_zero n`, which is -(n + 1).
use nospandsp_fax.Common.{ℕ, zero, suc, ◌+◌, ◌-◌, ◌*◌, ◌/◌, ◌^◌, ◌<◌, ◌≡◌, refl, true}
use nospandsp_fax.Common.{bit_and, bit_or, bit_xor, u8, low_bits, leb, ◌==◌, ==_iff, if◌then◌else◌}
use nospandsp_fax.Common.{all_below, all_below_sound}
use nospandsp_fax.Common.{CInt, from_zero, below_zero}

-- The index of the highest set bit of a 32-bit number that is not 0, by 31 halvings at most.
halvings : ℕ → ℕ → ℕ
halvings zero n = 0
halvings (suc f) n = let rest = halvings f (n / 2) in if n / 2 == 0 then 0 else rest + 1

-- `top_bit`; its -1 for 0 is not reached, as `linear_to_alaw` sets the low eight bits first.
unfoldable pub top_bit : ℕ → ℕ
unfolding halvings
top_bit n = halvings 31 n

-- `linear_to_alaw` once the sign has chosen the mask and left a magnitude.
unfoldable pub encode_magnitude : ℕ → ℕ → ℕ
unfolding top_bit
encode_magnitude mask linear =
    let seg = top_bit (bit_or linear 0xFF) - 7 in
    if leb 8 seg
    then u8 (bit_xor 0x7F mask)
    else u8 (
        bit_xor (bit_or (seg * 16) (low_bits (linear / 2 ^ (if seg == 0 then 4 else seg + 3)) 4))
          mask)

unfoldable pub linear_to_alaw : CInt → ℕ
unfolding encode_magnitude
linear_to_alaw (from_zero n) = encode_magnitude 0xD5 n
linear_to_alaw (below_zero n) = encode_magnitude 0x55 n

-- `alaw_to_linear`: the magnitude, and then the sign of bit 7.
unfoldable pub alaw_magnitude : ℕ → ℕ
alaw_magnitude octet =
    let i = low_bits octet 4 * 16 in
    let seg = bit_and octet 0x70 / 16 in if seg == 0 then i + 8 else (i + 0x108) * 2 ^ (seg - 1)

unfoldable pub alaw_to_linear : ℕ → CInt
unfolding alaw_magnitude
alaw_to_linear alaw =
    let octet = bit_xor alaw 0x55 in
    if bit_and octet 0x80 == 0
    then (if alaw_magnitude octet == 0 then from_zero 0 else below_zero (alaw_magnitude octet - 1))
    else from_zero (alaw_magnitude octet)

round_trip_table : all_below 256 (λ a. linear_to_alaw (alaw_to_linear a) == a) ≡ true
unfolding all_below linear_to_alaw alaw_to_linear
round_trip_table = refl

-- Every octet survives decoding and encoding again.
pub linear_to_alaw-alaw_to_linear : (a : ℕ) → a < 256 → linear_to_alaw (alaw_to_linear a) ≡ a
linear_to_alaw-alaw_to_linear a h =
    (==_iff _ a).0
      (all_below_sound 256 (λ a. linear_to_alaw (alaw_to_linear a) == a) a round_trip_table h)
