-- ===== src/T30/Idents.antt =====
-- Station identifiers in nf_t30.c: sent backwards and filled up with spaces, and read back.
use nospandsp_fax.Common.{ℕ, zero, suc, ◌-◌, ◌≤◌, ◌≡◌, ◌≢◌, refl, arith, ap, ◌∙◌}
use nospandsp_fax.Common.{Bool, List, [], ◌∷◌, ◌++◌, length, take, reverse}
use nospandsp_fax.Common.{replicate, length-append, length-replicate, take_short}
use mathlib.Core.List.{reverse-cons, reverse-append, reverse-reverse}
use nospandsp_fax.T30.State.{T30}
use nospandsp_fax.T30.Control.{build_id_frame}
use nospandsp_fax.T30.Fields.{skip_spaces, capture_far_ident}

-- The first element of a list is not a space.
abbrev pub NoSpaceFirst : List ℕ → Type 0
NoSpaceFirst [] = Unit {0}
NoSpaceFirst (x ∷ xs) = x ≢ 32

skip_spaces_none : (xs : List ℕ) → NoSpaceFirst xs → skip_spaces xs ≡ xs
unfolding skip_spaces
skip_spaces_none [] h = refl
skip_spaces_none (x ∷ xs) h = ground arith

skip_spaces-replicate : (n : ℕ) (xs : List ℕ) → skip_spaces (replicate n 32 ++ xs) ≡ skip_spaces xs
unfolding skip_spaces
skip_spaces-replicate zero xs = refl
skip_spaces-replicate (suc n) xs = skip_spaces-replicate n xs

NoSpaceFirst-append : (xs ys : List ℕ) → NoSpaceFirst xs → 1 ≤ length xs → NoSpaceFirst (xs ++ ys)
NoSpaceFirst-append [] ys h some_chars = absurd (omega arith)
NoSpaceFirst-append (x ∷ xs) ys h some_chars = h

replicate-snoc : (n c : ℕ) → replicate n c ++ (c ∷ []) ≡ c ∷ replicate n c
replicate-snoc zero c = refl
replicate-snoc (suc n) c = ap (λ (t : List ℕ). c ∷ t) (replicate-snoc n c)

reverse-replicate : (n c : ℕ) → reverse (replicate n c) ≡ replicate n c
reverse-replicate zero c = refl
reverse-replicate (suc n) c =
    reverse-cons c (replicate n c)
    ∙ (ap (λ (t : List ℕ). t ++ (c ∷ [])) (reverse-replicate n c) ∙ replicate-snoc n c)

count_reverse : (xs : List ℕ) → length (reverse xs) ≡ length xs
count_reverse [] = refl
count_reverse (x ∷ xs) =
    ap length (reverse-cons x xs)
    ∙ (length-append (reverse xs) (x ∷ []) ∙ omega (arith, count_reverse xs))

-- The field of an identifier, read back.
read_field :
    (ident : List ℕ)
    → length ident ≤ 20
    → NoSpaceFirst ident
    → NoSpaceFirst (reverse ident)
    → 1 ≤ length ident
    → (let field = reverse ident ++ replicate (20 - length ident) 32 in
        skip_spaces (reverse (skip_spaces (take 20 field))) ≡ ident)
read_field ident short first last some_chars =
    let pad : List ℕ = replicate (20 - length ident) 32 in
    let sized : length (reverse ident ++ pad) ≤ 20 = omega (
      arith,
      length-append (reverse ident) pad,
      count_reverse ident,
      length-replicate {A = ℕ} (20 - length ident) 32,
      short,
    ) in
    let front : NoSpaceFirst (reverse ident ++ pad) =
      NoSpaceFirst-append (reverse ident) pad last (omega (arith, count_reverse ident)) in
    ap (λ (t : List ℕ). skip_spaces (reverse (skip_spaces t)))
      (take_short (reverse ident ++ pad) 20 sized)
    ∙ (ap (λ (t : List ℕ). skip_spaces (reverse t)) (skip_spaces_none (reverse ident ++ pad) front)
        ∙ (ap skip_spaces (
              reverse-append (reverse ident) pad
              ∙ (ap (λ (t : List ℕ). t ++ reverse (reverse ident))
                    (reverse-replicate (20 - length ident) 32)
                  ∙ ap (λ (t : List ℕ). pad ++ t) (reverse-reverse ident)))
            ∙ (skip_spaces-replicate (20 - length ident) ident ∙ skip_spaces_none ident first)))

-- The far station's identifier is the one that was sent, if it has at most 20 characters and
-- neither the first nor the last is a space.
pub capture_far_ident-build_id_frame :
    (s : T30) (x : Bool) (ident : List ℕ) (fcf : ℕ)
    → length ident ≤ 20
    → NoSpaceFirst ident
    → NoSpaceFirst (reverse ident)
    → (capture_far_ident s (build_id_frame x ident fcf)).far_ident ≡ ident
unfolding capture_far_ident build_id_frame skip_spaces
capture_far_ident-build_id_frame s x [] fcf short first last = refl
capture_far_ident-build_id_frame s x (c ∷ cs) fcf short first last =
    ap
      (λ (t : List ℕ).
        skip_spaces (reverse (skip_spaces (take 20 (reverse t ++ replicate (20 - length t) 32)))))
      (take_short (c ∷ cs) 20 short)
    ∙ (read_field (c ∷ cs) short first last (omega arith))
