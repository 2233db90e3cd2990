-- ===== src/V34/Shell.antt =====
-- The shell mapper of nf_v34.c (`nf_v34_shell_map`, `nf_v34_shell_unmap`). The tables that
-- `shell_get_tables` caches are functions. Up to 32 rings their indices stay inside the arrays
-- and their values inside the C types; no difference in the source is negative there.
use nospandsp_fax.Common.{ℕ, zero, suc, ◌+◌, ◌-◌, ◌*◌, ◌/◌, ◌%◌, u32}
use nospandsp_fax.Common.{ltb, leb, if◌then◌else◌}
pub mod Climb
pub mod Pairs
pub mod RoundTrip
pub mod Capacity
pub mod Bijection

-- The sum of the values at the arguments below `n`.
unfoldable pub sum_below : (ℕ → ℕ) → ℕ → ℕ
sum_below f zero = 0
sum_below f (suc n) = sum_below f n + f n

unfoldable pub convolve : (ℕ → ℕ) → ℕ → ℕ
convolve f p = sum_below (λ k. f k * f (p - k)) (suc p)

-- `M - abs(p - M + 1)`, of which C has 128: all that is read with up to 32 rings
unfoldable pub g2 : ℕ → ℕ → ℕ
g2 m p =
    if leb p (2 * (m - 1))
    then (if leb m (p + 1) then m - (p + 1 - m) else m - (m - (p + 1)))
    else 0

-- Its C array reads g2 behind the end with more than 32 rings, where this is not its value.
unfoldable pub g4 : ℕ → ℕ → ℕ
g4 m p = if leb p (4 * (m - 1)) then convolve (g2 m) p else 0

unfoldable pub g8 : ℕ → ℕ → ℕ
g8 m p = if leb p (8 * (m - 1)) then convolve (g4 m) p else 0

unfoldable pub z8 : ℕ → ℕ → ℕ
z8 m p = sum_below (g8 m) p

-- `while (A < 8*(M-1) && shell_z8(t, A+1, M) <= R0) A++;`, given the rounds left.
unfoldable pub find_a : ℕ → ℕ → ℕ → ℕ → ℕ
find_a m r0 zero a = a
find_a m r0 (suc n) a =
    let rest = find_a m r0 n (suc a) in if leb (z8 m (suc a)) r0 then rest else a

-- The three loops for B, C and D, given the rounds left: the sum over `0 .. b` is subtracted
-- from `base` as long as it fits.
unfoldable pub climb : (ℕ → ℕ) → ℕ → ℕ → ℕ → ℕ → ℕ × ℕ
climb f base zero b r = (b, r)
climb f base (suc n) b r =
    let rest = climb f base n (suc b) (base - sum_below f (suc b)) in
    if leb (sum_below f (suc b)) base then rest else (b, r)

unfoldable pub parts : (ℕ → ℕ) → ℕ → ℕ → ℕ
parts g whole p = g p * g (whole - p)

-- The two rings of a 4D symbol, from their sum and their place among the pairs with that sum.
unfoldable pub split : ℕ → ℕ × ℕ → ℕ × ℕ
split m (sum, e) = if ltb sum m then (e, sum - e) else (sum - (m - 1 - e), m - 1 - e)

unfoldable pub join : ℕ → ℕ × ℕ → ℕ × ℕ
join m (r0, r1) = if ltb (r0 + r1) m then (r0 + r1, r0) else (r0 + r1, m - 1 - r1)

-- `rings[4][2]`
pub record Rings : Type 0 where
  pub ring0 : ℕ × ℕ
  pub ring1 : ℕ × ℕ
  pub ring2 : ℕ × ℕ
  pub ring3 : ℕ × ℕ

-- C, R4 of `climb` into E and F, for the sums C and `whole - C`.
unfoldable pub halves : ℕ → ℕ → ℕ × ℕ → (ℕ × ℕ) × (ℕ × ℕ)
halves m whole (c, r) = let e = r % g2 m c in ((c, e), (whole - c, (r - e) / g2 m c))

-- From R2 and B, or R3 and A - B, to two 4D symbols.
unfoldable pub map_pair : ℕ → ℕ → ℕ → (ℕ × ℕ) × (ℕ × ℕ)
map_pair m whole r =
    let (x, y) = halves m whole (climb (parts (g2 m) whole) r whole 0 r) in (split m x, split m y)

-- From A and R1, with B, to the four.
unfoldable pub map_rest : ℕ → ℕ → ℕ × ℕ → Rings
map_rest m a (b, r1) =
    let r2 = r1 % g4 m b in
    let (w, x) = map_pair m b r2 in
    let (y, z) = map_pair m (a - b) ((r1 - r2) / g4 m b) in
    record { ring0 = w; ring1 = x; ring2 = y; ring3 = z }

-- `nf_v34_shell_map`
unfoldable pub shell_map : ℕ → ℕ → Rings
shell_map m r0 =
    let a = find_a m r0 (8 * (m - 1)) 0 in
    let base = r0 - z8 m a in map_rest m a (climb (parts (g4 m) a) base a 0 base)

-- C with R4 and `ssum`, or D with R5: the sum of both, and R2 or R3.
unfoldable pub unmap_pair : ℕ → ℕ × ℕ → ℕ × ℕ → ℕ × ℕ
unmap_pair m (c, e) (c', f) = (c + c', f * g2 m c + e + sum_below (parts (g2 m) (c + c')) c)

unfoldable pub unmap_whole : ℕ → ℕ × ℕ → ℕ × ℕ → ℕ
unmap_whole m (b, r2) (b', r3) =
    r3 * g4 m b + r2 + z8 m (b + b') + sum_below (parts (g4 m) (b + b')) b

-- `nf_v34_shell_unmap`
unfoldable pub shell_unmap : ℕ → Rings → ℕ
shell_unmap m r = u32 (
    unmap_whole m (unmap_pair m (join m (r.ring0)) (join m (r.ring1)))
      (unmap_pair m (join m (r.ring2)) (join m (r.ring3))))
