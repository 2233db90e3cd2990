-- ===== src/V34/Shell/Pairs.antt =====
-- One 4D symbol, and a pair of them, in the shell mapper of nf_v34.c.
use nospandsp_fax.Common.{ℕ, suc, ◌+◌, ◌-◌, ◌*◌, ◌≤◌, ◌<◌, ◌≡◌, refl, ap}
use nospandsp_fax.Common.{arith}
use nospandsp_fax.V34.Shell.{
  sum_below, convolve, g2, g4, climb, parts, split, join, halves, map_pair, unmap_pair,
}
use nospandsp_fax.V34.Shell.Climb.{
  Splits, climb-Splits, climb-eq, divide_lem, divide-eq, sum_below-le,
}
use native.Mathlib.Nat.{mul-le-mul, le_refl, mul_comm}

-- Both rings of a 4D symbol are below `m`.
abbrev pub InRange : ℕ → ℕ × ℕ → Type 0
InRange m p = (p.0 < m) × (p.1 < m)

-- A place among the pairs with a sum.
abbrev pub IsPlace : ℕ → ℕ × ℕ → Type 0
IsPlace m p = p.1 < g2 m (p.0)

pub join-split :
    (m : ℕ) (p : ℕ × ℕ) → IsPlace m p → (join m (split m p) ≡ p) × InRange m (split m p)
unfolding join split g2
join-split m (s, e) h = ground arith

pub split-join : (m : ℕ) (p : ℕ × ℕ) → InRange m p → (split m (join m p) ≡ p) × IsPlace m (join m p)
unfolding join split g2
split-join m (r0, r1) h = ground arith

pub g2-bound : (m : ℕ) (p : ℕ × ℕ) → IsPlace m p → p.0 ≤ 2 * (m - 1)
unfolding g2
g2-bound m (s, e) h = ground arith

pub g4-le : (m p : ℕ) → g4 m p ≤ sum_below (parts (g2 m) p) (suc p)
unfolding g4 convolve parts
g4-le m p = ground arith

pub g4-eq : (m p : ℕ) → p ≤ 4 * (m - 1) → g4 m p ≡ sum_below (parts (g2 m) p) (suc p)
unfolding g4 convolve parts
g4-eq m p h = ground arith

halves_lem :
    (m whole r : ℕ) (p : ℕ × ℕ)
    → Splits (parts (g2 m) whole) r whole p
    → IsPlace m (halves m whole p).0
      × IsPlace m (halves m whole p).1
      × (unmap_pair m (halves m whole p).0 (halves m whole p).1 ≡ (whole, r))
unfolding halves unmap_pair parts
halves_lem m whole r (c, s) h =
    let (small, small', back) = divide_lem s (g2 m c) (g2 m (whole - c)) (grind (arith, h.below)) in
    let sum : c + (whole - c) ≡ whole = omega (arith, h.in_bound) in
    (small, small', rw sum (ap (λ (t : ℕ). (whole, t)) (omega (arith, back, h.total))))

-- Two places, from the number of a pair of symbols, and back.
pub map_pair_lem :
    (m whole r : ℕ)
    → r < g4 m whole
    → (unmap_pair m (join m (map_pair m whole r).0) (join m (map_pair m whole r).1) ≡ (whole, r))
      × InRange m (map_pair m whole r).0
      × InRange m (map_pair m whole r).1
unfolding map_pair
map_pair_lem m whole r below =
    let p = climb (parts (g2 m) whole) r whole 0 r in
    let (i, j, back) =
      halves_lem m whole r p
        (climb-Splits (parts (g2 m) whole) r whole (omega (arith, g4-le m whole))) in
    let (e, range) = join-split m (halves m whole p).0 i in
    let (e', range') = join-split m (halves m whole p).1 j in (rw (e, e') back, range, range')

pub place-lt : (f e g h : ℕ) → f < h → e < g → f * g + e < g * h
place-lt f e g h p q =
    let le : suc f * g ≤ h * g = mul-le-mul p (le_refl g) in omega (arith, le, mul_comm g h)

-- The number of two places is below the count of pairs with their sum, and leads back to them.
pub unmap_pair_lem :
    (m : ℕ) (x y : ℕ × ℕ)
    → IsPlace m x
    → IsPlace m y
    → ((unmap_pair m x y).1 < g4 m (unmap_pair m x y).0)
      × ((unmap_pair m x y).0 ≤ 4 * (m - 1))
      × (map_pair m (unmap_pair m x y).0 (unmap_pair m x y).1 ≡ (split m x, split m y))
unfolding unmap_pair map_pair halves sum_below
unmap_pair_lem m (c, e) (c', f) hx hy =
    let whole : ℕ = c + c' in
    let s : ℕ = f * g2 m c + e in
    let r : ℕ = s + sum_below (parts (g2 m) whole) c in
    let other : whole - c ≡ c' = omega arith in
    let below : s < parts (g2 m) whole c =
      unfold parts in rw other (place-lt f e (g2 m c) (g2 m c') hy hx) in
    let h : Splits (parts (g2 m) whole) r whole (c, s) = record {
      in_bound = omega arith;
      below = below;
      total = omega arith;
    } in
    let bound : whole ≤ 4 * (m - 1) = omega (arith, g2-bound m (c, e) hx, g2-bound m (c', f) hy) in
    let up : sum_below (parts (g2 m) whole) (suc c) ≤ sum_below (parts (g2 m) whole) (suc whole) =
      sum_below-le (parts (g2 m) whole) (suc c) (suc whole) (omega arith) in
    let (m0, d0) = divide-eq f (g2 m c) e hx in
    (
      ground (arith, g4-eq m whole bound),
      bound,
      rw (climb-eq (parts (g2 m) whole) r whole (c, s) h, m0, d0, other) refl,
    )
