-- ===== src/V34/Shell/Capacity.antt =====
-- How many numbers the shell mapper of nf_v34.c can map: a sum of convolutions is a product.
use nospandsp_fax.Common.{ℕ, zero, suc, ◌+◌, ◌-◌, ◌*◌, ◌≤◌, ◌<◌, ◌≡◌, refl, ap, ◌∙◌}
use nospandsp_fax.Common.{arith, ltb, if◌then◌else◌}
use nospandsp_fax.V34.Shell.{sum_below, convolve, g2, g4, g8, z8}
use nospandsp_fax.V34.Shell.RoundTrip.{capacity}
use native.Mathlib.Nat.{mul-add, add-mul}
use Prim.Native.Nat.{min}

sum_ext : (f g : ℕ → ℕ) (n : ℕ) → ((k : ℕ) → k < n → f k ≡ g k) → sum_below f n ≡ sum_below g n
unfolding sum_below
sum_ext f g zero h = refl
sum_ext f g (suc n) h =
    let rec = sum_ext f g n (λ k lt. h k (omega arith)) in let e = h n (omega arith) in omega arith

sum_add : (f g : ℕ → ℕ) (n : ℕ) → sum_below (λ k. f k + g k) n ≡ sum_below f n + sum_below g n
unfolding sum_below
sum_add f g zero = refl
sum_add f g (suc n) = omega (arith, sum_add f g n)

sum_scale : (f : ℕ → ℕ) (c n : ℕ) → sum_below (λ k. f k * c) n ≡ sum_below f n * c
unfolding sum_below
sum_scale f c zero = omega arith
sum_scale f c (suc n) = omega (arith, sum_scale f c n, add-mul (sum_below f n) (f n) c)

-- Values that are 0 add nothing.
sum_tail : (f : ℕ → ℕ) (n k : ℕ) → ((i : ℕ) → n ≤ i → f i ≡ 0) → sum_below f (n + k) ≡ sum_below f n
unfolding sum_below
sum_tail f n zero h = ap (sum_below f) (omega arith)
sum_tail f n (suc k) h =
    let e : n + suc k ≡ suc (n + k) = omega arith in
    let rec = sum_tail f n k h in let z = h (n + k) (omega arith) in rw e (omega arith)

-- The sum of the convolution of `f` with itself, row by row.
sum-convolve :
    (f : ℕ → ℕ) (n : ℕ) → sum_below (convolve f) n ≡ sum_below (λ k. f k * sum_below f (n - k)) n
unfolding sum_below convolve
sum-convolve f zero = refl
sum-convolve f (suc n) =
    let row : (k : ℕ)
        → k < n
        → f k * sum_below f (suc n - k) ≡ f k * sum_below f (n - k) + f k * f (n - k) =
      λ k lt.
        let e : suc n - k ≡ suc (n - k) = omega arith in
        rw e (mul-add (f k) (sum_below f (n - k)) (f (n - k))) in
    let rows =
      sum_ext (λ k. f k * sum_below f (suc n - k))
        (λ k. f k * sum_below f (n - k) + f k * f (n - k)) n row in
    let cols = sum_add (λ k. f k * sum_below f (n - k)) (λ k. f k * f (n - k)) n in
    let one_left : suc n - n ≡ 1 = omega arith in
    let none_left : n - n ≡ 0 = omega arith in
    let first : sum_below f 1 ≡ f 0 = omega arith in
    let rec = sum-convolve f n in rw (one_left, none_left, first) (omega arith)

-- The values of the convolution add up to the square of the sum, for an `f` that ends.
convolve_square :
    (f : ℕ → ℕ) (n c : ℕ)
    → ((i : ℕ) → n ≤ i → f i ≡ 0)
    → c + 2 ≡ n + n
    → sum_below (convolve f) (suc c) ≡ sum_below f n * sum_below f n
convolve_square f n c ends e =
    let count : suc c ≡ n + (n - 1) = omega arith in
    let cut : (k : ℕ) → k < n → f k * sum_below f (suc c - k) ≡ f k * sum_below f n = λ k lt.
      let more : suc c - k ≡ n + (suc c - k - n) = omega arith in
      rw more (rw (sum_tail f n (suc c - k - n) ends) refl) in
    let zeros : (k : ℕ) → n ≤ k → f k * sum_below f (suc c - k) ≡ 0 =
      λ k le. rw (ends k le) (omega arith) in
    sum-convolve f (suc c)
    ∙ ap (sum_below (λ k. f k * sum_below f (suc c - k))) count
    ∙ sum_tail (λ k. f k * sum_below f (suc c - k)) n (n - 1) zeros
    ∙ sum_ext (λ k. f k * sum_below f (suc c - k)) (λ k. f k * sum_below f n) n cut
    ∙ sum_scale f (sum_below f n) n

-- The same with the convolution cut where it ends.
level_square :
    (f g : ℕ → ℕ) (n c : ℕ)
    → ((p : ℕ) → p ≤ c → g p ≡ convolve f p)
    → ((i : ℕ) → n ≤ i → f i ≡ 0)
    → c + 2 ≡ n + n
    → sum_below g (suc c) ≡ sum_below f n * sum_below f n
level_square f g n c same ends e =
    sum_ext g (convolve f) (suc c) (λ k lt. same k (omega arith)) ∙ convolve_square f n c ends e

-- One for each ring.
one : ℕ → ℕ → ℕ
one m k = if ltb k m then 1 else 0

sum-one : (m n : ℕ) → n ≤ m → sum_below (one m) n ≡ n
unfolding sum_below one
sum-one m zero h = refl
sum-one m (suc n) h = ground (arith, sum-one m n (omega arith))

count_pairs :
    (m p n : ℕ) → n ≤ suc p → sum_below (λ k. one m k * one m (p - k)) n ≡ min n m - (suc p - m)
unfolding sum_below one
count_pairs m p zero h = omega arith
count_pairs m p (suc n) h = ground (arith, count_pairs m p n (omega arith))

g2-convolve : (m p : ℕ) → p ≤ 2 * (m - 1) → g2 m p ≡ convolve (one m) p
unfolding g2 convolve
g2-convolve m p h = ground (arith, count_pairs m p (suc p) (omega arith))

-- With one ring or more, the mapper has as many numbers as there are eight rings.
pub capacity_lem : (m : ℕ) → 0 < m → capacity m ≡ (m * m) * (m * m) * ((m * m) * (m * m))
unfolding z8
capacity_lem m pos =
    let two : sum_below (g2 m) (suc (2 * (m - 1))) ≡ m * m =
      level_square (one m) (g2 m) m (2 * (m - 1)) (g2-convolve m)
        (λ i le. unfold one in ground arith) (omega arith)
      ∙ ap (λ (t : ℕ). t * t) (sum-one m m (omega arith)) in
    let four : sum_below (g4 m) (suc (4 * (m - 1))) ≡ (m * m) * (m * m) =
      level_square (g2 m) (g4 m) (suc (2 * (m - 1))) (4 * (m - 1))
        (λ p le. unfold g4 in ground arith) (λ i le. unfold g2 in ground arith) (omega arith)
      ∙ ap (λ (t : ℕ). t * t) two in
    level_square (g4 m) (g8 m) (suc (4 * (m - 1))) (8 * (m - 1)) (λ p le. unfold g8 in ground arith)
      (λ i le. unfold g4 in ground arith) (omega arith)
    ∙ ap (λ (t : ℕ). t * t) four
