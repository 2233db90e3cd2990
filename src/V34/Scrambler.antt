-- ===== src/V34/Scrambler.antt =====
-- The self-synchronising scrambler of nf_v34.c, with its counter of bits unbounded.
use nospandsp_fax.Common.{ℕ, ◌+◌, ◌-◌, ◌*◌, ◌%◌, Bool, if◌then◌else◌}
use nospandsp_fax.Common.{List, [], ◌∷◌, replicate, get_or, set, bit_xor}
pub mod Sync

-- `nf_v34_scrambler_t`
pub record Scrambler : Type 0 where
  pub hist : List ℕ
  pub pos : ℕ
  pub tap_a : ℕ
  pub tap_b : ℕ

unfoldable pub scrambler_init : Bool → Scrambler
scrambler_init is_call_modem = record {
  hist = replicate 32 0;
  pos = 0;
  tap_a = if is_call_modem then 18 else 5;
  tap_b = 23;
}

unfoldable pub hist_get : Scrambler → ℕ → ℕ
hist_get s delay = get_or s.hist ((s.pos + 32 * 4 - delay) % 32) 0

unfoldable pub store : Scrambler → ℕ → Scrambler
store s v = record s { hist = set s.hist (s.pos % 32) v; pos = s.pos + 1 }

-- `(bit ^ a ^ b) & 1` with the two delayed bits
unfoldable pub mix : Scrambler → ℕ → ℕ
mix s b = bit_xor (bit_xor b (hist_get s s.tap_a)) (hist_get s s.tap_b) % 2

unfoldable pub scramble_bit : Scrambler → ℕ → Scrambler × ℕ
scramble_bit s b = let v = mix s b in (store s v, v)

unfoldable pub descramble_bit : Scrambler → ℕ → Scrambler × ℕ
descramble_bit s b = let v = mix s b in (store s (b % 2), v)

-- The bits in order.
unfoldable pub scramble : Scrambler → List ℕ → List ℕ
scramble s [] = []
scramble s (b ∷ bs) = let (s', v) = scramble_bit s b in v ∷ scramble s' bs

unfoldable pub descramble : Scrambler → List ℕ → List ℕ
descramble s [] = []
descramble s (b ∷ bs) = let (s', v) = descramble_bit s b in v ∷ descramble s' bs
