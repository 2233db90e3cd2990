-- ===== src/Fax/Tones/Schedule.antt =====
-- When the calling tones of nf_fax.c sound.
use nospandsp_fax.Common.{
  ℕ, zero, suc, ◌-◌, ◌+◌, ◌%◌, ◌≤◌, ◌≡◌, refl, ap, sym, ◌∙◌, arith, ltb, leb, if◌then◌else◌, Bool,
  true, false, Bool-cases, inl, inr,
}
use nospandsp_fax.Common.{List, [], ◌∷◌, ◌++◌, replicate, take}
use nospandsp_fax.Fax.Tones.{tonegen_init, cng_samples, ced_samples, tone_tx, tones}

abbrev pub total : List ℕ → ℕ
total [] = 0
total (n ∷ sizes) = n + total sizes

-- So many samples of CNG from a number on: half a second of tone in each three and a half.
abbrev pub cadence : ℕ → ℕ → List Bool
cadence k zero = []
cadence k (suc n) = ltb (k % 28000) 4000 ∷ cadence (k + 1) n

cadence-add : (k n m : ℕ) → cadence k (n + m) ≡ cadence k n ++ cadence (k + n) m
cadence-add k zero m =
    let e1 : 0 + m ≡ m = omega arith in let e2 : k + 0 ≡ k = omega arith in rw (e1, e2) refl
cadence-add k (suc n) m =
    let e1 : suc n + m ≡ suc (n + m) = omega arith in
    let e2 : k + suc n ≡ k + 1 + n = omega arith in
    rw (e1, e2) (ap (λ (l : List Bool). ltb (k % 28000) 4000 ∷ l) (cadence-add (k + 1) n m))

-- The countdown at a sample.
abbrev countdown : ℕ → ℕ
countdown k = 28000 - k % 28000

cng_samples-cadence : (n k : ℕ) → cng_samples n (countdown k) ≡ (countdown (k + n), cadence k n)
unfolding cng_samples
cng_samples-cadence zero k = let e : k + 0 ≡ k = omega arith in rw e refl
cng_samples-cadence (suc n) k =
    let now : ltb 24000 (countdown k) ≡ ltb (k % 28000) 4000 = ground arith in
    let next : (if leb (countdown k) 1 then 28000 else countdown k - 1) ≡ countdown (k + 1) =
      ground arith in
    let e : k + suc n ≡ k + 1 + n = omega arith in
    rw (now, next, cng_samples-cadence n (k + 1), e) refl

tones-cadence :
    (sizes : List ℕ) (k : ℕ)
    → tones (record { cng = true; timer = countdown k }) sizes ≡ cadence k (total sizes)
unfolding tones tone_tx
tones-cadence [] k = refl
tones-cadence (n ∷ sizes) k =
    rw (cng_samples-cadence n k, tones-cadence sizes (k + n)) (sym (cadence-add k n (total sizes)))

-- So many samples of CED at most, of which so many are left: 200 ms of silence, then the tone.
abbrev pub ced : ℕ → ℕ → List Bool
ced left zero = []
ced zero (suc n) = []
ced (suc left) (suc n) = leb (suc left) 20800 ∷ ced left n

ced-add : (left n m : ℕ) → ced left (n + m) ≡ ced left n ++ ced (left - n) m
ced-add left zero m =
    let e1 : 0 + m ≡ m = omega arith in let e2 : left - 0 ≡ left = omega arith in rw (e1, e2) refl
ced-add zero (suc n) zero = let e : suc n + 0 ≡ suc n = omega arith in rw e refl
ced-add zero (suc n) (suc m) =
    let e1 : suc n + suc m ≡ suc (n + suc m) = omega arith in
    let e2 : 0 - suc n ≡ 0 = omega arith in rw (e1, e2) refl
ced-add (suc left) (suc n) m =
    let e1 : suc n + m ≡ suc (n + m) = omega arith in
    let e2 : suc left - suc n ≡ left - n = omega arith in
    rw (e1, e2) (ap (λ (l : List Bool). leb (suc left) 20800 ∷ l) (ced-add left n m))

ced-replicate :
    (left n : ℕ) → left ≤ 20800 → ced left n ≡ replicate (if leb left n then left else n) true
ced-replicate left zero le =
    let e : (if leb left 0 then left else 0) ≡ 0 = ground arith in rw e refl
ced-replicate zero (suc n) le =
    let e : (if leb 0 (suc n) then 0 else suc n) ≡ 0 = ground arith in rw e refl
ced-replicate (suc left) (suc n) le =
    let on : leb (suc left) 20800 ≡ true = ground arith in
    let e : (if leb (suc left) (suc n) then suc left else suc n)
        ≡ suc (if leb left n then left else n) =
      ground arith in
    rw (on, e) (ap (λ (l : List Bool). true ∷ l) (ced-replicate left n (omega arith)))

-- With `lead` samples of silence first.
ced_lem :
    (lead n : ℕ)
    → ced (20800 + lead) n
      ≡ replicate (if ltb n lead then n else lead) false
        ++ replicate
            ((if leb (20800 + lead) n then 20800 + lead else n) - (if ltb n lead then n else lead))
            true
ced_lem lead zero =
    let e1 : (if ltb 0 lead then 0 else lead) ≡ 0 = ground arith in
    let e2 : (if leb (20800 + lead) 0 then 20800 + lead else 0) ≡ 0 = ground arith in
    rw (e1, e2) refl
ced_lem zero (suc n) =
    let e1 : (if ltb (suc n) 0 then suc n else 0) ≡ 0 = ground arith in
    let e2 : (if leb 20800 (suc n) then 20800 else suc n) - 0
        ≡ (if leb 20800 (suc n) then 20800 else suc n) =
      omega arith in
    rw (e1, e2) (ced-replicate 20800 (suc n) (omega arith))
ced_lem (suc lead) (suc n) =
    let e0 : 20800 + suc lead ≡ suc (20800 + lead) = omega arith in
    let off : leb (suc (20800 + lead)) 20800 ≡ false = ground arith in
    let e1 : (if ltb (suc n) (suc lead) then suc n else suc lead)
        ≡ suc (if ltb n lead then n else lead) =
      ground arith in
    let e2 : (if leb (suc (20800 + lead)) (suc n) then suc (20800 + lead) else suc n)
          - suc (if ltb n lead then n else lead)
        ≡ (if leb (20800 + lead) n then 20800 + lead else n) - (if ltb n lead then n else lead) =
      ground arith in
    rw (e0, off, e1, e2) (ap (λ (l : List Bool). false ∷ l) (ced_lem lead n))

ced_samples-ced : (n t : ℕ) → ced_samples n t ≡ (t - n, ced t n)
unfolding ced_samples
ced_samples-ced n t =
    let len = if leb t n then t else n in
    let left : t - len ≡ t - n = ground arith in
    elim (Bool-cases (ltb 20800 t)) [
      | inl early ↦
          let lead = t - 20800 in
          let at : 20800 + lead ≡ t = ground (arith, early) in
          let i = if ltb n lead then n else lead in
          let same : (if ltb len lead then len else lead) ≡ i = ground arith in
          let more : (if leb (20800 + lead) n then 20800 + lead else n) - i ≡ len - i =
            ap (λ (m : ℕ). (if leb m n then m else n) - i) at in
          rw (left, early, same)
            (ap (λ (l : List Bool). (t - n, l))
              (sym (
                ap (λ (m : ℕ). ced m n) (sym at)
                ∙ ced_lem lead n
                ∙ ap (λ (m : ℕ). replicate i false ++ replicate m true) more)))
      | inr late ↦
          let same : (if ltb len 0 then len else 0) ≡ 0 = ground arith in
          let whole : len - 0 ≡ len = omega arith in
          rw (left, late, same, whole)
            (ap (λ (l : List Bool). (t - n, l)) (sym (ced-replicate t n (ground (arith, late)))))
    ]

ced-take_late : (left n : ℕ) → left ≤ 20800 → ced left n ≡ take n (replicate left true)
ced-take_late left zero le = refl
ced-take_late zero (suc n) le = refl
ced-take_late (suc left) (suc n) le =
    let on : leb (suc left) 20800 ≡ true = ground arith in
    rw on (ap (λ (l : List Bool). true ∷ l) (ced-take_late left n (omega arith)))

ced-take :
    (lead n : ℕ) → ced (20800 + lead) n ≡ take n (replicate lead false ++ replicate 20800 true)
ced-take lead zero = refl
ced-take zero (suc n) = ced-take_late 20800 (suc n) (omega arith)
ced-take (suc lead) (suc n) =
    let e0 : 20800 + suc lead ≡ suc (20800 + lead) = omega arith in
    let off : leb (suc (20800 + lead)) 20800 ≡ false = ground arith in
    rw (e0, off) (ap (λ (l : List Bool). false ∷ l) (ced-take lead n))

tones-ced :
    (sizes : List ℕ) (t : ℕ) → tones (record { cng = false; timer = t }) sizes ≡ ced t (total sizes)
unfolding tones tone_tx
tones-ced [] t = refl
tones-ced (n ∷ sizes) t =
    rw (ced_samples-ced n t, tones-ced sizes (t - n)) (sym (ced-add t n (total sizes)))

-- Whatever sizes the tone is asked for in, CNG sounds for half a second in each three and a half
-- and never ends, and CED is 200 ms of silence and 2.6 s of tone, and then ends.
pub tones-schedule :
    (sizes : List ℕ)
    → (tones (tonegen_init true) sizes ≡ cadence 0 (total sizes))
      × (tones (tonegen_init false) sizes
          ≡ take (total sizes) (replicate 1600 false ++ replicate 20800 true))
unfolding tonegen_init
tones-schedule sizes = (tones-cadence sizes 0, tones-ced sizes 22400 ∙ ced-take 1600 (total sizes))
