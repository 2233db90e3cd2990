-- ===== src/V34/Mp/Collect.antt =====
-- How the MP receiver of nf_v34.c finds the sync and collects a frame.
use nospandsp_fax.Common.{ℕ, zero, suc, ◌+◌, ◌%◌, ◌≤◌, ◌<◌, ◌≡◌, refl, sym, ap, ◌∙◌, ◌⊎◌}
use nospandsp_fax.Common.{false, arith, All}
use nospandsp_fax.Common.{none, some, List, [], ◌∷◌, ◌++◌, length, replicate}
use nospandsp_fax.Common.{length-append, append_assoc}
use nospandsp_fax.V34.Scrambler.{Scrambler, scramble, scramble_bit}
use nospandsp_fax.V34.Scrambler.Sync.{Agree, bit_back, step-InStep}
use nospandsp_fax.V34.Mp.{
  Heard, MpRx, hunt, collect, search_sync, listen_in, listen, mp_feed_bit, mp_feed,
}
use mathlib.Core.Path.{subst}

unfoldable pub listen_all : Heard → List ℕ → Heard
listen_all h [] = h
listen_all h (b ∷ bs) = listen_all (listen h b) bs

-- In step with the scrambler, the receiver hears the bits that were scrambled.
pub mp_feed-scramble :
    (s : MpRx) (scr : Scrambler) (bs : List ℕ)
    → Agree 23 scr s.descr
    → All (λ b. b < 2) bs
    → (mp_feed s (scramble scr bs)).heard ≡ listen_all s.heard bs
unfolding mp_feed scramble listen_all mp_feed_bit
mp_feed-scramble s scr [] h bits = refl
mp_feed-scramble s scr (b ∷ bs) h (bit, bits) =
    let same : b % 2 ≡ b = omega arith in
    mp_feed-scramble (mp_feed_bit s (scramble_bit scr b).1) (scramble_bit scr b).0 bs
      (step-InStep scr s.descr b h) bits
    ∙ ap (λ (x : ℕ). listen_all (listen s.heard x) bs) (bit_back scr s.descr b h ∙ same)

-- The state when a frame begins.
abbrev pub started : Heard → Heard
started h = record h { have_frame = false; ones_run = 0; buf = some [] }

listen_one :
    (h : Heard)
    → h.buf ≡ none
    → listen h 1 ≡ record h { have_frame = false; ones_run = h.ones_run + 1; buf = none }
unfolding listen listen_in search_sync
listen_one h e = ground arith

listen_zero : (h : Heard) → h.buf ≡ none → 17 ≤ h.ones_run → listen h 0 ≡ started h
unfolding listen listen_in search_sync
listen_zero h e le = ground arith

-- Seventeen ones or more and a zero begin a frame.
pub listen_all-sync :
    (n : ℕ) (h : Heard) (rest : List ℕ)
    → h.buf ≡ none
    → 17 ≤ h.ones_run + n
    → listen_all h (replicate n 1 ++ (0 ∷ rest)) ≡ listen_all (started h) rest
unfolding listen_all
listen_all-sync zero h rest e le =
    ap (λ (g : Heard). listen_all g rest) (listen_zero h e (omega arith))
listen_all-sync (suc n) h rest e le =
    ap (λ (g : Heard). listen_all g (replicate n 1 ++ (0 ∷ rest))) (listen_one h e)
    ∙ listen_all-sync n (record h { have_frame = false; ones_run = h.ones_run + 1; buf = none })
        rest refl (omega arith)

-- The length of a frame by its first bit.
abbrev pub IsLength : ℕ → ℕ → Type 0
IsLength t n = ((t ≡ 0) × (n ≡ 70)) ⊎ ((t ≡ 1) × (n ≡ 170))

more_bits :
    (h : Heard) (t x : ℕ) (p : List ℕ) (n : ℕ)
    → h.buf ≡ some (t ∷ p)
    → length p + 2 < n
    → IsLength t n
    → listen h x ≡ record h { have_frame = false; buf = some (t ∷ (p ++ (x ∷ []))) }
unfolding listen listen_in collect
more_bits h t x p n e lt size = ground (arith, length-append p (x ∷ []))

last_bit :
    (h : Heard) (t x : ℕ) (p : List ℕ)
    → h.buf ≡ some (t ∷ p)
    → IsLength t (length p + 2)
    → listen h x ≡ collect (started h) (t ∷ (p ++ (x ∷ [])))
unfolding listen listen_in collect hunt
last_bit h t x p e size = ground (arith, length-append p (x ∷ []))

collect_from :
    (h : Heard) (t : ℕ) (p zs : List ℕ) (n : ℕ)
    → h.buf ≡ some (t ∷ p)
    → 0 < length zs
    → length p + length zs + 1 ≡ n
    → IsLength t n
    → listen_all h zs ≡ collect (started h) (t ∷ (p ++ zs))
unfolding listen_all
collect_from h t p [] n e pos at size = absurd (omega arith)
collect_from h t p (x ∷ []) n e pos at size =
    let same : length p + 2 ≡ n = omega arith in
    last_bit h t x p e (subst (IsLength t) (sym same) size)
collect_from h t p (x ∷ y ∷ zs) n e pos at size =
    ap (λ (g : Heard). listen_all g (y ∷ zs)) (more_bits h t x p n e (omega arith) size)
    ∙ collect_from (record h { have_frame = false; buf = some (t ∷ (p ++ (x ∷ []))) }) t
        (p ++ (x ∷ [])) (y ∷ zs) n refl (omega arith) (omega (arith, length-append p (x ∷ []))) size
    ∙ ap (λ (l : List ℕ). collect (started h) (t ∷ l)) (append_assoc p (x ∷ []) (y ∷ zs))

first_bit : (h : Heard) (t : ℕ) → listen (started h) t ≡ record (started h) { buf = some (t ∷ []) }
unfolding listen listen_in collect
first_bit h t = ground arith

-- The receiver hears a whole frame.
pub listen_all-frame :
    (h : Heard) (t : ℕ) (zs : List ℕ)
    → IsLength t (length zs + 1)
    → 0 < length zs
    → listen_all (started h) (t ∷ zs) ≡ collect (started h) (t ∷ zs)
unfolding listen_all
listen_all-frame h t zs size pos =
    ap (λ (g : Heard). listen_all g zs) (first_bit h t)
    ∙ collect_from (record (started h) { buf = some (t ∷ []) }) t [] zs (length zs + 1) refl pos
        (omega arith) size
