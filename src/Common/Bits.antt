-- ===== src/Common/Bits.antt =====
-- `bit_xor`, `bit_or` and `bit_and` on numbers that are split into a high and a low field.
use Prim.Native.Nat.{ℕ, zero, suc, ◌+◌, ◌*◌, ◌/◌, ◌%◌, ◌^◌, ◌≤◌, ◌<◌, min, max, bit_and, bit_or}
use Prim.Native.Nat.{
  bit_xor, digits, bitwise, differ, bit_xor-bitwise, bit_or-bitwise, bit_and-bitwise,
}
use mathlib.Core.Path.{◌≡◌, refl, ap}
use native.Mathlib.Nat.{pow-suc, le_refl}
use native.Mathlib.Omega.{arith}
use nospandsp_fax.Common.Tests.{◌==◌, ==_iff}
use nospandsp_fax.Common.Words.{all_below, all_below_sound}

-- `digits` is the same for any two counts that are large enough.
module _ (z : ℕ → ℕ) (f : ℕ → ℕ → ℕ) where
  enough_digits : (b a n m : ℕ) → a ≤ n → a ≤ m → digits z f n a b ≡ digits z f m a b
  enough_digits b zero zero zero p q = refl
  enough_digits b zero zero (suc m) p q = refl
  enough_digits b zero (suc n) zero p q = refl
  enough_digits b zero (suc n) (suc m) p q = refl
  enough_digits b (suc a) zero m p q = absurd (omega arith)
  enough_digits b (suc a) (suc n) zero p q = absurd (omega arith)
  enough_digits b (suc a) (suc n) (suc m) p q =
      ap (λ t. t * 2 + f (suc a % 2) (b % 2))
        (enough_digits (b / 2) (suc a / 2) n m (omega arith) (omega arith))

  lowest_digit :
      (a b : ℕ)
      → bitwise z f (suc a) b ≡ bitwise z f (suc a / 2) (b / 2) * 2 + f (suc a % 2) (b % 2)
  lowest_digit a b =
      ap (λ t. t * 2 + f (suc a % 2) (b % 2))
        (enough_digits (b / 2) (suc a / 2) a (suc a / 2) (omega arith) (le_refl _))

pub xor_step : (a b : ℕ) → bit_xor a b ≡ bit_xor (a / 2) (b / 2) * 2 + differ (a % 2) (b % 2)
xor_step zero b = simp bit_xor-bitwise (omega arith)
xor_step (suc a) b = simp bit_xor-bitwise (lowest_digit (λ y. y) differ a b)

or_step : (a b : ℕ) → bit_or a b ≡ bit_or (a / 2) (b / 2) * 2 + max (a % 2) (b % 2)
or_step zero b = simp bit_or-bitwise (omega arith)
or_step (suc a) b = simp bit_or-bitwise (lowest_digit (λ y. y) max a b)

and_step : (a b : ℕ) → bit_and a b ≡ bit_and (a / 2) (b / 2) * 2 + min (a % 2) (b % 2)
and_step zero b = simp bit_and-bitwise (omega arith)
and_step (suc a) b = simp bit_and-bitwise (lowest_digit (λ y. 0) min a b)

-- An operation that works digit by digit works field by field.
module _ (op f : ℕ → ℕ → ℕ) (step : (a b : ℕ) → op a b ≡ op (a / 2) (b / 2) * 2 + f (a % 2) (b % 2))
    (none_set : op 0 0 ≡ 0) where
  by_fields :
      (k h h' l l' : ℕ)
      → l < 2 ^ k
      → l' < 2 ^ k
      → op (h * 2 ^ k + l) (h' * 2 ^ k + l') ≡ op h h' * 2 ^ k + op l l'
  by_fields zero h h' zero zero p q =
      let bare : (t : ℕ) → t * 2 ^ 0 + 0 ≡ t = λ t. omega arith in
      rw (bare h, bare h', none_set) (omega arith)
  by_fields zero h h' zero (suc l') p q = absurd (omega arith)
  by_fields zero h h' (suc l) l' p q = absurd (omega arith)
  by_fields (suc k) h h' l l' p q = ground (
    arith,
    step (h * 2 ^ suc k + l) (h' * 2 ^ suc k + l'),
    step l l',
    doubled h,
    doubled h',
    doubled (op h h'),
    by_fields k h h' (l / 2) (l' / 2) (omega (arith, pow-suc 2 k)) (omega (arith, pow-suc 2 k)),
  )
    where
      doubled : (t : ℕ) → t * 2 ^ suc k ≡ 2 * (t * 2 ^ k)
      doubled t = rw (pow-suc 2 k) (omega arith)

pub xor_fields :
    (k h h' l l' : ℕ)
    → l < 2 ^ k
    → l' < 2 ^ k
    → bit_xor (h * 2 ^ k + l) (h' * 2 ^ k + l') ≡ bit_xor h h' * 2 ^ k + bit_xor l l'
xor_fields = by_fields bit_xor differ xor_step refl

pub or_fields :
    (k h h' l l' : ℕ)
    → l < 2 ^ k
    → l' < 2 ^ k
    → bit_or (h * 2 ^ k + l) (h' * 2 ^ k + l') ≡ bit_or h h' * 2 ^ k + bit_or l l'
or_fields = by_fields bit_or max or_step refl

pub and_fields :
    (k h h' l l' : ℕ)
    → l < 2 ^ k
    → l' < 2 ^ k
    → bit_and (h * 2 ^ k + l) (h' * 2 ^ k + l') ≡ bit_and h h' * 2 ^ k + bit_and l l'
and_fields = by_fields bit_and min and_step refl

pub bit_or-zero_octet : (t : ℕ) → t < 256 → bit_or t 0 ≡ t
bit_or-zero_octet t lt =
    (==_iff _ _).0 (all_below_sound 256 (λ t. bit_or t 0 == t) t (unfold all_below in refl) lt)

differ_bits : (x y : ℕ) → x < 2 → y < 2 → differ x y ≡ (x + y) % 2
differ_bits zero y h k = omega arith
differ_bits (suc zero) zero h k = refl
differ_bits (suc zero) (suc zero) h k = refl
differ_bits (suc zero) (suc (suc y)) h k = absurd (omega arith)
differ_bits (suc (suc x)) y h k = absurd (omega arith)

pub bit_xor-mod_two : (a b : ℕ) → bit_xor a b % 2 ≡ (a + b) % 2
bit_xor-mod_two a b =
    omega (arith, xor_step a b, differ_bits (a % 2) (b % 2) (omega arith) (omega arith))
