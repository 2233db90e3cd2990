-- ===== src/Fax/Transmit/Runs.antt =====
-- Parts of a run of one sample and what follows it, for the steps of nf_fax.c.
use nospandsp_fax.Common.{ℕ, zero, suc, ◌+◌, ◌-◌, ◌≤◌, ◌≡◌, refl, ap, arith}
use nospandsp_fax.Common.{List, [], ◌∷◌, ◌++◌, take, drop, replicate}

module _ {ℓ} {A : Type ℓ} where
  pub take-replicate :
      (n k : ℕ) (r : A) (ys : List A) → n ≤ k → take n (replicate k r ++ ys) ≡ replicate n r
  take-replicate zero k r ys le = refl
  take-replicate (suc n) zero r ys le = absurd (omega arith)
  take-replicate (suc n) (suc k) r ys le =
      ap (λ (l : List A). r ∷ l) (take-replicate n k r ys (omega arith))

  pub drop-replicate :
      (n k : ℕ) (r : A) (ys : List A)
      → n ≤ k
      → drop n (replicate k r ++ ys) ≡ replicate (k - n) r ++ ys
  drop-replicate zero k r ys le = let e : k - 0 ≡ k = omega arith in rw e refl
  drop-replicate (suc n) zero r ys le = absurd (omega arith)
  drop-replicate (suc n) (suc k) r ys le =
      let e : suc k - suc n ≡ k - n = omega arith in rw e (drop-replicate n k r ys (omega arith))

  pub take-replicate_past :
      (n k : ℕ) (r : A) (ys : List A)
      → k ≤ n
      → take n (replicate k r ++ ys) ≡ replicate k r ++ take (n - k) ys
  take-replicate_past n zero r ys le = let e : n - 0 ≡ n = omega arith in rw e refl
  take-replicate_past zero (suc k) r ys le = absurd (omega arith)
  take-replicate_past (suc n) (suc k) r ys le =
      let e : suc n - suc k ≡ n - k = omega arith in
      rw e (ap (λ (l : List A). r ∷ l) (take-replicate_past n k r ys (omega arith)))

  pub drop-replicate_past :
      (n k : ℕ) (r : A) (ys : List A) → k ≤ n → drop n (replicate k r ++ ys) ≡ drop (n - k) ys
  drop-replicate_past n zero r ys le = let e : n - 0 ≡ n = omega arith in rw e refl
  drop-replicate_past zero (suc k) r ys le = absurd (omega arith)
  drop-replicate_past (suc n) (suc k) r ys le =
      let e : suc n - suc k ≡ n - k = omega arith in
      rw e (drop-replicate_past n k r ys (omega arith))

  pub take-add : (n m : ℕ) (xs : List A) → take (n + m) xs ≡ take n xs ++ take m (drop n xs)
  take-add zero m xs = let e : 0 + m ≡ m = omega arith in rw e refl
  take-add (suc n) zero [] = let e : suc n + 0 ≡ suc n = omega arith in rw e refl
  take-add (suc n) (suc m) [] = let e : suc n + suc m ≡ suc (n + suc m) = omega arith in rw e refl
  take-add (suc n) m (x ∷ xs) =
      let e : suc n + m ≡ suc (n + m) = omega arith in
      rw e (ap (λ (l : List A). x ∷ l) (take-add n m xs))
