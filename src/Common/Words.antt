-- ===== src/Common/Words.antt =====
-- Casts to C's unsigned widths, and the arithmetic form of its shifts and masks:
-- `(x >> k) & 1` is `bit x k`, `x & (2^k - 1)` is `low_bits x k`, `x >> k` is `x / 2 ^ k`, and
-- `|` of fields that share no bit is `+`. Tables check a statement at every value of a range.
use Prim.Native.Nat.{ℕ, zero, suc, ◌/◌, ◌%◌, ◌^◌, ◌<◌}
use mathlib.Core.Path.{◌≡◌}
use mathlib.Core.Bool.{Bool, true, ◌&&◌}
use mathlib.Core.List.{List, [], ◌∷◌, ◌++◌}
use native.Mathlib.Omega.{arith}

abbrev pub u8 : ℕ → ℕ
u8 n = n % 2 ^ 8

abbrev pub u16 : ℕ → ℕ
u16 n = n % 2 ^ 16

abbrev pub u32 : ℕ → ℕ
u32 n = n % 2 ^ 32

abbrev pub bit : ℕ → ℕ → ℕ
bit x k = x / 2 ^ k % 2

abbrev pub low_bits : ℕ → ℕ → ℕ
low_bits x k = x % 2 ^ k

abbrev pub IsByte : ℕ → Type 0
IsByte b = b < 256

-- A C `int` argument that may be negative: `below_zero n` is -(n + 1).
pub data CInt : Type 0 where
  from_zero : ℕ → CInt
  below_zero : ℕ → CInt

-- A test at every number below a bound, the greatest last.
unfoldable pub all_below : ℕ → (ℕ → Bool) → Bool
all_below zero test = true
all_below (suc top) test = all_below top test && test top

pub all_below_sound :
    (bound : ℕ) (test : ℕ → Bool) (k : ℕ) → all_below bound test ≡ true → k < bound → test k ≡ true
unfolding all_below
all_below_sound zero test k passed lt = absurd (omega arith)
all_below_sound (suc top) test k passed lt = ground (all_below_sound top test k, arith)

-- The bits of an octet and of a run of octets, lowest bit first.
abbrev pub octet_bits : ℕ → List ℕ
octet_bits x = bit x 0 ∷ bit x 1 ∷ bit x 2 ∷ bit x 3 ∷ bit x 4 ∷ bit x 5 ∷ bit x 6 ∷ bit x 7 ∷ []

abbrev pub data_bits : List ℕ → List ℕ
data_bits [] = []
data_bits (x ∷ xs) = octet_bits x ++ data_bits xs
