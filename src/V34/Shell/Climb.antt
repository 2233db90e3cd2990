-- ===== src/V34/Shell/Climb.antt =====
-- The loops of the shell mapper in nf_v34.c: each takes the sums apart that the way back adds up.
use nospandsp_fax.Common.{ℕ, zero, suc, ◌+◌, ◌-◌, ◌*◌, ◌/◌, ◌%◌, ◌≤◌, ◌<◌, ◌≡◌, refl, ap}
use nospandsp_fax.Common.{arith, leb, ◌∙◌, ◌⊎◌, inl, inr, Bool-cases}
use nospandsp_fax.V34.Shell.{sum_below, climb, find_a, g8, z8}
use native.Mathlib.Nat.{mod-lt, mod-add-div', div-lt_iff_lt-mul, add-mul-mod_self_right}
use native.Mathlib.Nat.{mod-eq_of_lt, mul-div_cancel}

pub sum_below-le : (f : ℕ → ℕ) (n k : ℕ) → n ≤ k → sum_below f n ≤ sum_below f k
unfolding sum_below
sum_below-le f n zero h = let e : n ≡ 0 = omega arith in rw e (omega arith)
sum_below-le f n (suc k) h = elim (last (omega arith)) [
  | inl e ↦ rw e (omega arith)
  | inr le ↦ let rec = sum_below-le f n k le in omega arith
]
  where
    last : n ≤ suc k → (n ≡ suc k) ⊎ (n ≤ k)
    last p = omega arith

-- What a loop returns: the last place whose sum fits, and what is left.
pub record Splits (f : ℕ → ℕ) (base bound : ℕ) (p : ℕ × ℕ) : Type 0 where
  pub in_bound : p.0 ≤ bound
  pub below : p.1 < f (p.0)
  pub total : base ≡ sum_below f (p.0) + p.1

climb-Splits_from :
    (f : ℕ → ℕ) (base bound n b r : ℕ)
    → b + n ≡ bound
    → base ≡ sum_below f b + r
    → base < sum_below f (suc bound)
    → Splits f base bound (climb f base n b r)
unfolding climb sum_below
climb-Splits_from f base bound zero b r at e lt =
    let same : bound ≡ b = omega arith in
    let lt' : base < sum_below f b + f b = rw (← same) lt in
    record { in_bound = omega arith; below = omega arith; total = e }
climb-Splits_from f base bound (suc n) b r at e lt =
    elim (Bool-cases (leb (sum_below f (suc b)) base)) [
      | inl fits ↦ rw fits (
          climb-Splits_from f base bound n (suc b) (base - sum_below f (suc b)) (omega arith)
            (ground arith) lt)
      | inr over ↦ rw over (record { in_bound = omega arith; below = ground arith; total = e })
    ]

pub climb-Splits :
    (f : ℕ → ℕ) (base bound : ℕ)
    → base < sum_below f (suc bound)
    → Splits f base bound (climb f base bound 0 base)
unfolding sum_below
climb-Splits f base bound lt =
    climb-Splits_from f base bound bound 0 base (omega arith) (omega arith) lt

-- If what is left is below the value at some place, that place is the one found.
climb-eq_from :
    (f : ℕ → ℕ) (base n b r c s : ℕ)
    → base ≡ sum_below f b + r
    → b ≤ c
    → c ≤ b + n
    → base ≡ sum_below f c + s
    → s < f c
    → climb f base n b r ≡ (c, s)
unfolding climb sum_below
climb-eq_from f base zero b r c s e le ge e' lt =
    let same : c ≡ b = omega arith in
    let e'' : base ≡ sum_below f b + s = rw (← same) e' in
    rw same (ap (λ (t : ℕ). (b, t)) (omega arith))
climb-eq_from f base (suc n) b r c s e le ge e' lt = elim (here_or_later (omega arith)) [
  | inl same ↦
      let e'' : base ≡ sum_below f b + s = rw (← same) e' in
      let lt' : s < f b = rw (← same) lt in rw same (ground arith)
  | inr later ↦
      let fits = sum_below-le f (suc b) c later in
      let rec =
        climb-eq_from f base n (suc b) (base - sum_below f (suc b)) c s (omega arith) later
          (omega arith) e' lt in
      ground arith
]
  where
    here_or_later : b ≤ c → (c ≡ b) ⊎ (suc b ≤ c)
    here_or_later p = omega arith

pub climb-eq :
    (f : ℕ → ℕ) (base bound : ℕ) (p : ℕ × ℕ) → Splits f base bound p → climb f base bound 0 base ≡ p
unfolding sum_below
climb-eq f base bound (c, s) h =
    climb-eq_from f base bound 0 base c s (omega arith) (omega arith) (omega (arith, h.in_bound))
      (h.total) (h.below)

-- The loop for A stops where the others would.
pub find_a-climb : (m r0 n a r : ℕ) → find_a m r0 n a ≡ (climb (g8 m) r0 n a r).0
unfolding find_a climb z8
find_a-climb m r0 zero a r = refl
find_a-climb m r0 (suc n) a r =
    let rec = find_a-climb m r0 n (suc a) (r0 - sum_below (g8 m) (suc a)) in ground arith

-- A number below a product, taken apart by its first factor.
pub divide_lem :
    (n g h : ℕ)
    → n < h * g
    → (n % g < g) × ((n - n % g) / g < h) × ((n - n % g) / g * g + n % g ≡ n)
divide_lem n g h lt =
    let pos : 0 < g = grind arith in
    let e = mod-add-div' n g in
    let q : n - n % g ≡ n / g * g = omega arith in
    let d : (n - n % g) / g ≡ n / g = ap (λ (t : ℕ). t / g) q ∙ mul-div_cancel (n / g) pos in
    let small : n / g < h = (div-lt_iff_lt-mul pos).1 lt in
    (mod-lt n pos, rw d small, rw d (omega arith))

pub divide-eq : (q g r : ℕ) → r < g → ((q * g + r) % g ≡ r) × ((q * g + r - r) / g ≡ q)
divide-eq q g r lt = (
  ap (λ (t : ℕ). t % g) (omega arith) ∙ add-mul-mod_self_right r q g ∙ mod-eq_of_lt lt,
  ap (λ (t : ℕ). t / g) (omega arith) ∙ mul-div_cancel q (omega arith),
)
