-- ===== src/T30/Blocks.antt =====
-- Blocks of an error-corrected page in nf_t30.c: the octets of the frames, the slots that hold
-- them, and the slots put together.
use nospandsp_fax.Common.{ℕ, zero, suc, ◌+◌, ◌*◌, ◌≤◌, ◌≡◌, refl, arith, ap, take, drop}
use nospandsp_fax.Common.{true, false, Option, none, some, List, [], ◌∷◌, ◌++◌, length}
use nospandsp_fax.Common.{sym, ◌∙◌, set, ltb, append_assoc, length-append, append-nil}
use nospandsp_fax.T30.EcmSend.{padded, frame_payload}
use nospandsp_fax.T30.EcmReceive.{all_here, append_slots, ecm_rx_append, rx_max_page}
use nospandsp_fax.T30.Recovery.{drop_none, drop-drop}

pub length-padded : (count : ℕ) (xs : List ℕ) → length (padded count xs) ≡ count
unfolding padded
length-padded zero xs = refl
length-padded (suc count) [] = ap suc (length-padded count [])
length-padded (suc count) (x ∷ xs) = ap suc (length-padded count xs)

take-padded : (count : ℕ) (xs : List ℕ) → take count (padded count xs) ≡ padded count xs
unfolding padded
take-padded zero xs = refl
take-padded (suc count) [] = ap (λ (t : List ℕ). 0 ∷ t) (take-padded count [])
take-padded (suc count) (x ∷ xs) = ap (λ (t : List ℕ). x ∷ t) (take-padded count xs)

pub take-frame_payload :
    (enc : List ℕ) (base i : ℕ) → take 256 (frame_payload enc base i) ≡ frame_payload enc base i
unfolding frame_payload
take-frame_payload enc base i = take-padded 256 (drop (base + i * 256) enc)

padded-append : (m n : ℕ) (xs : List ℕ) → padded m xs ++ padded n (drop m xs) ≡ padded (m + n) xs
unfolding padded
padded-append zero n xs = let same : 0 + n ≡ n = omega arith in rw same refl
padded-append (suc m) n [] =
    let same : suc m + n ≡ suc (m + n) = omega arith in
    rw same (
      ap (λ (t : List ℕ). 0 ∷ t)
        (ap (λ (t : List ℕ). padded m [] ++ padded n t) (sym (drop_none m)) ∙ padded-append m n []))
padded-append (suc m) n (x ∷ xs) =
    let same : suc m + n ≡ suc (m + n) = omega arith in
    rw same (ap (λ (t : List ℕ). x ∷ t) (padded-append m n xs))

-- Every slot that is filled, from slot `i` on, holds the octets of its frame.
abbrev pub Correct : List ℕ → ℕ → ℕ → List (Option (List ℕ)) → Type 0
Correct enc base i [] = Unit {0}
Correct enc base i (none ∷ slots) = Correct enc base (suc i) slots
Correct enc base i (some got ∷ slots) =
    (got ≡ frame_payload enc base i) × Correct enc base (suc i) slots

module _ (enc : List ℕ) (base : ℕ) where
  pub Correct-set :
      (slots : List (Option (List ℕ))) (i k at : ℕ)
      → at ≡ i + k
      → Correct enc base i slots
      → Correct enc base i (set slots k (some (frame_payload enc base at)))
  Correct-set [] i k at place h = tt
  Correct-set (none ∷ slots) i zero at place h =
      let same : at ≡ i = omega arith in (rw same refl, h)
  Correct-set (some got ∷ slots) i zero at place (p, h) =
      let same : at ≡ i = omega arith in (rw same refl, h)
  Correct-set (none ∷ slots) i (suc k) at place h = Correct-set slots (suc i) k at (omega arith) h
  Correct-set (some got ∷ slots) i (suc k) at place (p, h) =
      (p, Correct-set slots (suc i) k at (omega arith) h)

  -- The octets of `frames` frames from frame `i` on.
  abbrev pub block_octets : ℕ → ℕ → List ℕ
  block_octets i frames = padded (frames * 256) (drop (base + i * 256) enc)

  block_octets-suc :
      (i frames : ℕ)
      → frame_payload enc base i ++ block_octets (suc i) frames ≡ block_octets i (suc frames)
  unfolding frame_payload
  block_octets-suc i frames =
      let place : base + i * 256 + 256 ≡ base + suc i * 256 = omega arith in
      let size : 256 + frames * 256 ≡ suc frames * 256 = omega arith in
      ap (λ (t : List ℕ). padded 256 (drop (base + i * 256) enc) ++ padded (frames * 256) t)
        (sym (drop-drop enc 256 (base + i * 256) ∙ ap (λ (t : ℕ). drop t enc) place))
      ∙ (padded-append 256 (frames * 256) (drop (base + i * 256) enc)
          ∙ ap (λ (t : ℕ). padded t (drop (base + i * 256) enc)) size)

  -- Correct slots of which the first `frames` are all filled are put together to the octets of the
  -- block, if the page has room for them.
  pub append_slots_lem :
      (frames i : ℕ) (slots : List (Option (List ℕ))) (page : List ℕ)
      → Correct enc base i slots
      → all_here frames slots ≡ true
      → frames ≤ length slots
      → length page + frames * 256 ≤ rx_max_page
      → append_slots frames slots page ≡ page ++ block_octets i frames
  unfolding append_slots all_here ecm_rx_append padded
  append_slots_lem zero i slots page h full enough room = sym (append-nil page)
  append_slots_lem (suc frames) i [] page h full enough room = absurd (omega arith)
  append_slots_lem (suc frames) i (none ∷ slots) page h full enough room = cc
  append_slots_lem (suc frames) i (some got ∷ slots) page (same, h) full enough room =
      let sized : length got ≡ 256 =
        rw same (unfold frame_payload in length-padded 256 (drop (base + i * 256) enc)) in
      let fits : ltb rx_max_page (length page + length got) ≡ false = ground (arith, sized, room) in
      rw fits (
        append_slots_lem frames (suc i) slots (page ++ got) h full (omega arith)
          (omega (arith, length-append page got, sized, room))
        ∙ (append_assoc page got (block_octets (suc i) frames)
            ∙ ap (λ (t : List ℕ). page ++ t)
                (ap (λ (t : List ℕ). t ++ block_octets (suc i) frames) same
                  ∙ block_octets-suc i frames)))
