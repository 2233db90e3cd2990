-- ===== src/Fax/History.antt =====
-- What the history of nf_fax.c holds.
use nospandsp_fax.Common.{
  ℕ, zero, suc, ◌-◌, ◌+◌, ◌≤◌, ◌≡◌, refl, ap, sym, ◌∙◌, arith, ltb, ◌==◌, if◌then◌else◌, false,
  Bool-cases, inl, inr,
}
use nospandsp_fax.Common.{
  List, [], ◌∷◌, ◌++◌, length, drop, length-append, length-drop, append_assoc, append-nil,
}
use nospandsp_fax.Fax.{hist_cap, keep_history, keep_all}

module _ {ℓ} {A : Type ℓ} where
  drop-append : (n : ℕ) (xs ys : List A) → drop n (xs ++ ys) ≡ drop n xs ++ drop (n - length xs) ys
  drop-append zero xs ys =
      let e : 0 - length xs ≡ 0 = omega arith in ap (λ (m : ℕ). xs ++ drop m ys) (sym e)
  drop-append (suc n) [] ys =
      let e : suc n - 0 ≡ suc n = omega arith in ap (λ (m : ℕ). drop m ys) (sym e)
  drop-append (suc n) (x ∷ xs) ys =
      let e : suc n - suc (length xs) ≡ n - length xs = omega arith in
      drop-append n xs ys ∙ ap (λ (m : ℕ). drop n xs ++ drop m ys) (sym e)

  drop_all : (n : ℕ) (xs : List A) → length xs ≤ n → drop n xs ≡ []
  drop_all zero [] le = refl
  drop_all (suc n) [] le = refl
  drop_all zero (x ∷ xs) le = absurd (omega arith)
  drop_all (suc n) (x ∷ xs) le = drop_all n xs (omega arith)

  drop-drop : (a b : ℕ) (xs : List A) → drop a (drop b xs) ≡ drop (b + a) xs
  drop-drop a zero xs = let e : 0 + a ≡ a = omega arith in ap (λ (m : ℕ). drop m xs) (sym e)
  drop-drop a (suc b) [] = drop_all a [] (omega arith) ∙ sym (drop_all (suc b + a) [] (omega arith))
  drop-drop a (suc b) (x ∷ xs) =
      let e : suc b + a ≡ suc (b + a) = omega arith in
      drop-drop a b xs ∙ ap (λ (m : ℕ). drop m (x ∷ xs)) (sym e)

  -- The last so many of a list, or all if there are fewer.
  abbrev pub last : ℕ → List A → List A
  last n xs = drop (length xs - n) xs

  last-append : (n : ℕ) (xs ys : List A) → last n (last n xs ++ ys) ≡ last n (xs ++ ys)
  last-append n xs ys =
      let k = length xs - n in
      let none : k - length xs ≡ 0 = omega arith in
      let e : drop k xs ++ ys ≡ drop k (xs ++ ys) =
        sym (drop-append k xs ys ∙ ap (λ (m : ℕ). drop k xs ++ drop m ys) none) in
      let l : length (drop k (xs ++ ys)) ≡ length xs + length ys - k =
        length-drop k (xs ++ ys) ∙ ap (λ (m : ℕ). m - k) (length-append xs ys) in
      let l' = length-append xs ys in
      ap (λ (zs : List A). last n zs) e
      ∙ drop-drop (length (drop k (xs ++ ys)) - n) k (xs ++ ys)
      ∙ ap (λ (m : ℕ). drop m (xs ++ ys)) (omega arith)

  -- What is kept of the samples before, as one drop.
  kept_drop :
      (hist : List A) (len n : ℕ)
      → length hist ≤ hist_cap
      → n ≡ (if ltb hist_cap len then hist_cap else len)
      → (if ltb hist_cap (length hist + n) then drop (length hist - (hist_cap - n)) hist else hist)
        ≡ drop (length hist + len - hist_cap) hist
  kept_drop hist len n le e = elim (Bool-cases (ltb hist_cap len)) [
    | inl long ↦
        let gone = drop_all (length hist + len - hist_cap) hist (ground (arith, long)) in
        elim (Bool-cases (ltb hist_cap (length hist + n))) [
          | inl over ↦
              rw over
                (drop_all (length hist - (hist_cap - n)) hist (ground (arith, long, e)) ∙ sym gone)
          | inr fits ↦ rw fits (drop_all 0 hist (ground (arith, long, fits, e)) ∙ sym gone)
        ]
    | inr short ↦ elim (Bool-cases (ltb hist_cap (length hist + n))) [
      | inl over ↦
          let at : length hist - (hist_cap - n) ≡ length hist + len - hist_cap =
            ground (arith, short, e) in
          rw over (ap (λ (m : ℕ). drop m hist) at)
      | inr fits ↦
          let none : length hist + len - hist_cap ≡ 0 = ground (arith, short, fits, e) in
          rw fits (ap (λ (m : ℕ). drop m hist) (sym none))
    ]
  ]

  keep_history-last :
      (hist amp : List A)
      → length hist ≤ hist_cap
      → keep_history hist amp ≡ last hist_cap (hist ++ amp)
  unfolding keep_history
  keep_history-last hist [] le =
      let e : length (hist ++ []) - hist_cap ≡ 0 = omega (arith, length-append hist []) in
      rw e (sym (append-nil hist))
  keep_history-last hist (x ∷ xs) le =
      let amp = x ∷ xs in
      let len = length amp in
      let n = if ltb hist_cap len then hist_cap else len in
      let size = length-append hist amp in
      let cut : len - n ≡ length (hist ++ amp) - hist_cap - length hist =
        ground (arith, size, le) in
      let kept = kept_drop hist len n le refl in
      let at : length hist + len - hist_cap ≡ length (hist ++ amp) - hist_cap = omega arith in
      let some_in : (len == 0) ≡ false = ground arith in
      rw some_in (
        ap (λ (zs : List A). zs ++ drop (len - n) amp) (kept ∙ ap (λ (m : ℕ). drop m hist) at)
        ∙ ap (λ (m : ℕ). drop (length (hist ++ amp) - hist_cap) hist ++ drop m amp) cut
        ∙ sym (drop-append (length (hist ++ amp) - hist_cap) hist amp))

  abbrev pub joined : List (List A) → List A
  joined [] = []
  joined (xs ∷ rest) = xs ++ joined rest

  length-last : (n : ℕ) (xs : List A) → length (last n xs) ≤ n
  length-last n xs = omega (arith, length-drop (length xs - n) xs)

  -- Whatever the sizes of the chunks that come in, a history of at most 8000 samples then is the
  -- last 8000 of all samples, those that it had included, or all of them if there are fewer.
  pub keep_all-last :
      (hist : List A) (chunks : List (List A))
      → length hist ≤ hist_cap
      → keep_all hist chunks ≡ last hist_cap (hist ++ joined chunks)
  unfolding keep_all
  keep_all-last hist [] le =
      let e : length (hist ++ []) - hist_cap ≡ 0 = omega (arith, length-append hist []) in
      rw e (sym (append-nil hist))
  keep_all-last hist (amp ∷ chunks) le =
      let one = keep_history-last hist amp le in
      let le' : length (keep_history hist amp) ≤ hist_cap =
        rw one (length-last hist_cap (hist ++ amp)) in
      keep_all-last (keep_history hist amp) chunks le'
      ∙ ap (λ (zs : List A). last hist_cap (zs ++ joined chunks)) one
      ∙ last-append hist_cap (hist ++ amp) (joined chunks)
      ∙ ap (λ (zs : List A). last hist_cap zs) (append_assoc hist amp (joined chunks))
