-- ===== src/V34/Frames.antt =====
-- What the frames of the V.34 startup share in nf_v34.c: fields of bits, lowest first, and the
-- check sequence. The `|` of the source joins bits at different places, so it is a sum.
use nospandsp_fax.Common.{ℕ, zero, suc, ◌+◌, ◌*◌, ◌/◌, ◌%◌, ◌^◌, ◌<◌, arith, u16}
use nospandsp_fax.Common.{List, [], ◌∷◌, get_or, bit_xor, ◌==◌, if◌then◌else◌}

-- `(x >> i) & 1` for all `i` below the width.
unfoldable pub field : ℕ → ℕ → List ℕ
field zero x = []
field (suc w) x = (x % 2) ∷ field w (x / 2)

-- `b[at] | b[at + 1] << 1 | ...`, of so many bits.
unfoldable pub read : ℕ → List ℕ → ℕ → ℕ
read zero b at = 0
read (suc w) b at = get_or b at 0 + 2 * read w b (suc at)

-- `v34_mp_crc_update`
unfoldable pub crc_update : ℕ → ℕ → ℕ
crc_update crc b =
    if bit_xor (crc % 2) (b % 2) == 1 then u16 (bit_xor (crc / 2) 0x8408) else crc / 2

unfoldable pub crc_from : ℕ → List ℕ → ℕ
crc_from crc [] = crc
crc_from crc (b ∷ bs) = crc_from (crc_update crc b) bs

-- `v34_info_crc_bits`, and the loops over groups of bits.
unfoldable pub crc_bits : List ℕ → ℕ
crc_bits bs = crc_from 0xFFFF bs

crc_from-lt : (crc : ℕ) (bs : List ℕ) → crc < 2 ^ 16 → crc_from crc bs < 2 ^ 16
unfolding crc_from crc_update
crc_from-lt crc [] h = h
crc_from-lt crc (b ∷ bs) h = crc_from-lt (crc_update crc b) bs (ground arith)

pub crc_bits-lt : (bs : List ℕ) → crc_bits bs < 2 ^ 16
unfolding crc_bits
crc_bits-lt bs = crc_from-lt 0xFFFF bs (omega arith)
