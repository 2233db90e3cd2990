-- ===== src/V34/Shell/RoundTrip.antt =====
-- The shell mapper of nf_v34.c and its inverse.
use nospandsp_fax.Common.{ℕ, suc, ◌+◌, ◌-◌, ◌*◌, ◌/◌, ◌%◌, ◌^◌, ◌≤◌, ◌<◌, ◌≡◌, refl, ap, ◌∙◌}
use nospandsp_fax.Common.{arith}
use nospandsp_fax.V34.Shell.{
  sum_below, convolve, g4, g8, z8, climb, find_a, parts, join, Rings, map_pair, map_rest, shell_map,
  unmap_pair, unmap_whole, shell_unmap,
}
use nospandsp_fax.V34.Shell.Climb.{
  Splits, climb-Splits, climb-eq, divide_lem, divide-eq, sum_below-le, find_a-climb,
}
use nospandsp_fax.V34.Shell.Pairs.{InRange, split-join, map_pair_lem, unmap_pair_lem, place-lt}

-- All rings are below `m`.
abbrev pub AreRings : ℕ → Rings → Type 0
AreRings m r = InRange m r.ring0 × InRange m r.ring1 × InRange m r.ring2 × InRange m r.ring3

-- How many numbers there are to map.
abbrev pub capacity : ℕ → ℕ
capacity m = z8 m (suc (8 * (m - 1)))

-- The number of the rings, before it is cut to 32 bits.
unfoldable unmapped : ℕ → Rings → ℕ
unmapped m r =
    unmap_whole m (unmap_pair m (join m (r.ring0)) (join m (r.ring1)))
      (unmap_pair m (join m (r.ring2)) (join m (r.ring3)))

g8-le : (m p : ℕ) → g8 m p ≤ sum_below (parts (g4 m) p) (suc p)
unfolding g8 convolve parts
g8-le m p = ground arith

g8-eq : (m p : ℕ) → p ≤ 8 * (m - 1) → g8 m p ≡ sum_below (parts (g4 m) p) (suc p)
unfolding g8 convolve parts
g8-eq m p h = ground arith

map_rest_lem :
    (m a base : ℕ) (p : ℕ × ℕ)
    → Splits (parts (g4 m) a) base a p
    → (unmapped m (map_rest m a p) ≡ base + z8 m a) × AreRings m (map_rest m a p)
unfolding map_rest unmapped unmap_whole parts
map_rest_lem m a base (b, r1) h =
    let (small, small', back) = divide_lem r1 (g4 m b) (g4 m (a - b)) (grind (arith, h.below)) in
    let (e, i, j) = map_pair_lem m b (r1 % g4 m b) small in
    let (e', k, l) = map_pair_lem m (a - b) ((r1 - r1 % g4 m b) / g4 m b) small' in
    let sum : b + (a - b) ≡ a = omega (arith, h.in_bound) in
    (rw (e, e', sum) (omega (arith, back, h.total)), (i, j, k, l))

find_a_lem :
    (m r0 : ℕ)
    → r0 < capacity m
    → (r0 - z8 m (find_a m r0 (8 * (m - 1)) 0) < g8 m (find_a m r0 (8 * (m - 1)) 0))
      × (z8 m (find_a m r0 (8 * (m - 1)) 0) ≤ r0)
unfolding z8
find_a_lem m r0 lt =
    let h = climb-Splits (g8 m) r0 (8 * (m - 1)) lt in
    rw (find_a-climb m r0 (8 * (m - 1)) 0 r0) (omega (arith, h.below, h.total))

pub back_from_rings :
    (m r0 : ℕ)
    → r0 < capacity m
    → r0 < 2 ^ 32
    → (shell_unmap m (shell_map m r0) ≡ r0) × AreRings m (shell_map m r0)
unfolding shell_map shell_unmap unmapped
back_from_rings m r0 lt narrow =
    let a : ℕ = find_a m r0 (8 * (m - 1)) 0 in
    let base : ℕ = r0 - z8 m a in
    let (below, fits) = find_a_lem m r0 lt in
    let (e, rings) =
      map_rest_lem m a base (climb (parts (g4 m) a) base a 0 base)
        (climb-Splits (parts (g4 m) a) base a (omega (arith, g8-le m a))) in
    (rw e (omega arith), rings)

-- The rest of the way back and forth, from the numbers of the two pairs.
module _ (m : ℕ) (b r2 b' r3 : ℕ) (lt : r2 < g4 m b) (lt' : r3 < g4 m b') (le : b ≤ 4 * (m - 1))
    (le' : b' ≤ 4 * (m - 1)) where
  abbrev whole : ℕ
  whole = b + b'

  abbrev pair_number : ℕ
  pair_number = r3 * g4 m b + r2

  abbrev base_number : ℕ
  base_number = pair_number + sum_below (parts (g4 m) whole) b

  inner : Splits (parts (g4 m) whole) base_number whole (b, pair_number)
  inner =
      let other : whole - b ≡ b' = omega arith in
      record {
        in_bound = omega arith;
        below = unfold parts in rw other (place-lt r3 r2 (g4 m b) (g4 m b') lt' lt);
        total = omega arith;
      }

  outer : Splits (g8 m) (base_number + z8 m whole) (8 * (m - 1)) (whole, base_number)
  unfolding z8 sum_below
  outer =
      let up = sum_below-le (parts (g4 m) whole) (suc b) (suc whole) (omega arith) in
      record {
        in_bound = omega arith;
        below = omega (arith, g8-eq m whole (omega arith), inner.below, up);
        total = omega arith;
      }

  unmap_whole-lt : unmap_whole m (b, r2) (b', r3) < capacity m
  unfolding unmap_whole z8 sum_below
  unmap_whole-lt =
      let up = sum_below-le (g8 m) (suc whole) (suc (8 * (m - 1))) (omega arith) in
      omega (arith, outer.below, up)

  find_a-eq : find_a m (base_number + z8 m whole) (8 * (m - 1)) 0 ≡ whole
  find_a-eq =
      find_a-climb m (base_number + z8 m whole) (8 * (m - 1)) 0 (base_number + z8 m whole)
      ∙ ap (λ (p : ℕ × ℕ). p.0)
          (climb-eq (g8 m) (base_number + z8 m whole) (8 * (m - 1)) (whole, base_number) outer)

  shell_map-unmap_whole : shell_map m (unmap_whole m (b, r2) (b', r3)) ≡ record {
    ring0 = (map_pair m b r2).0;
    ring1 = (map_pair m b r2).1;
    ring2 = (map_pair m b' r3).0;
    ring3 = (map_pair m b' r3).1;
  }
  unfolding shell_map map_rest unmap_whole
  shell_map-unmap_whole =
      let (m0, d0) = divide-eq r3 (g4 m b) r2 lt in
      let other : whole - b ≡ b' = omega arith in
      let n : pair_number + z8 m whole + sum_below (parts (g4 m) whole) b
          ≡ base_number + z8 m whole =
        omega arith in
      let left : base_number + z8 m whole - z8 m whole ≡ base_number = omega arith in
      rw (n, find_a-eq, left)
        (rw (climb-eq (parts (g4 m) whole) base_number whole (b, pair_number) inner, m0, d0, other)
          refl)

pub back_from_number :
    (m : ℕ) (r : Rings)
    → AreRings m r
    → capacity m ≤ 2 ^ 32
    → (shell_map m (shell_unmap m r) ≡ r) × (shell_unmap m r < capacity m)
unfolding shell_unmap
back_from_number m r (h0, h1, h2, h3) narrow =
    let (e0, i0) = split-join m (r.ring0) h0 in
    let (e1, i1) = split-join m (r.ring1) h1 in
    let (e2, i2) = split-join m (r.ring2) h2 in
    let (e3, i3) = split-join m (r.ring3) h3 in
    let x = unmap_pair m (join m (r.ring0)) (join m (r.ring1)) in
    let y = unmap_pair m (join m (r.ring2)) (join m (r.ring3)) in
    let (lt, le, e) = unmap_pair_lem m (join m (r.ring0)) (join m (r.ring1)) i0 i1 in
    let (lt', le', e') = unmap_pair_lem m (join m (r.ring2)) (join m (r.ring3)) i2 i3 in
    let below = unmap_whole-lt m (x.0) (x.1) (y.0) (y.1) lt lt' le le' in
    let whole = shell_map-unmap_whole m (x.0) (x.1) (y.0) (y.1) lt lt' le le' in
    let cut : unmap_whole m x y % 2 ^ 32 ≡ unmap_whole m x y = omega arith in
    (rw cut (whole ∙ rw (e, e', e0, e1, e2, e3) refl), rw cut below)
