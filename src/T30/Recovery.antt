-- ===== src/T30/Recovery.antt =====
-- Error correction of nf_t30.c, from the map of missing frames back to the frames to send.
use native.Mathlib.Nat.{pow-suc, div-div-eq-div-mul}
use nospandsp_fax.Common.{ℕ, zero, suc, ◌+◌, ◌*◌, ◌/◌, ◌%◌, ◌^◌, ◌≤◌, ◌<◌, ◌≡◌, refl, arith}
use nospandsp_fax.Common.{Bool, true, false, Option, none, some, List, [], ◌∷◌, length, get_or, ap}
use nospandsp_fax.Common.{sym, ◌∙◌, drop, length-drop, bit, ltb, ◌==◌, if◌then◌else◌}
use nospandsp_fax.T30.State.{T30}
use nospandsp_fax.T30.EcmSend.{apply_map, ecm_apply_ppr}
use nospandsp_fax.T30.EcmReceive.{is_missing, map_octet, missing_map, ppr_frame}

bit_above : (x b j : ℕ) → b < 2 → bit (b + 2 * x) (suc j) ≡ bit x j
bit_above x b j small =
    let half : (b + 2 * x) / 2 ≡ x = omega arith in
    rw (pow-suc 2 j) (
      ap (λ (t : ℕ). t % 2)
        (ap (λ (t : ℕ). (b + 2 * x) / t) (omega arith)
          ∙ (sym (div-div-eq-div-mul (b + 2 * x) 2 (2 ^ j)) ∙ ap (λ (t : ℕ). t / 2 ^ j) half)))

one_if : (b : Bool) (x : ℕ) → (bit ((if b then 1 else 0) + 2 * x) 0 == 1) ≡ b
one_if true x = ground arith
one_if false x = ground arith

one_if_small : (b : Bool) → (if b then 1 else 0) < 2
one_if_small true = omega arith
one_if_small false = omega arith

-- Bit `j` of an octet of the map is the mark of the frame `j` behind its first.
bit-map_octet :
    (slots : List (Option (List ℕ))) (left j : ℕ)
    → j < left
    → left ≤ length slots
    → (bit (map_octet left slots) j == 1) ≡ is_missing (get_or slots j none)
unfolding map_octet
bit-map_octet slots zero j lt enough = absurd (omega arith)
bit-map_octet [] (suc left) j lt enough = absurd (omega arith)
bit-map_octet (slot ∷ slots) (suc left) zero lt enough =
    one_if (is_missing slot) (map_octet left slots)
bit-map_octet (slot ∷ slots) (suc left) (suc j) lt enough =
    ap (λ (t : ℕ). t == 1)
      (bit_above (map_octet left slots) (if is_missing slot then 1 else 0) j
        (one_if_small (is_missing slot)))
    ∙ bit-map_octet slots left j (omega arith) (omega arith)

get_or-drop {ℓ} :
    {A : Type ℓ} (xs : List A) (n j : ℕ) (d : A) → get_or (drop n xs) j d ≡ get_or xs (n + j) d
get_or-drop xs zero j d = let same : 0 + j ≡ j = omega arith in rw same refl
get_or-drop [] (suc n) j d = refl
get_or-drop (x ∷ xs) (suc n) j d =
    let same : suc n + j ≡ suc (n + j) = omega arith in rw same (get_or-drop xs n j d)

pub drop_none {ℓ} : {A : Type ℓ} (m : ℕ) → drop {A = A} m [] ≡ []
drop_none zero = refl
drop_none (suc m) = refl

pub drop-drop {ℓ} : {A : Type ℓ} (xs : List A) (m n : ℕ) → drop m (drop n xs) ≡ drop (n + m) xs
drop-drop xs m zero = let same : 0 + m ≡ m = omega arith in rw same refl
drop-drop [] m (suc n) = let same : suc n + m ≡ suc (n + m) = omega arith in rw same (drop_none m)
drop-drop (x ∷ xs) m (suc n) =
    let same : suc n + m ≡ suc (n + m) = omega arith in rw same (drop-drop xs m n)

get_or-missing_map :
    (count q : ℕ) (slots : List (Option (List ℕ)))
    → q < count
    → get_or (missing_map count slots) q 0 ≡ map_octet 8 (drop (8 * q) slots)
unfolding missing_map
get_or-missing_map zero q slots lt = absurd (omega arith)
get_or-missing_map (suc count) zero slots lt = refl
get_or-missing_map (suc count) (suc q) slots lt =
    let more : 8 + 8 * q ≡ 8 * suc q = omega arith in
    get_or-missing_map count q (drop 8 slots) (omega arith)
    ∙ (ap (map_octet 8) (drop-drop slots (8 * q) 8)
        ∙ ap (λ (t : ℕ). map_octet 8 (drop t slots)) more)

-- The bit of the map for a frame.
bit-missing_map :
    (slots : List (Option (List ℕ))) (fno : ℕ)
    → length slots ≡ 256
    → fno < 256
    → (bit (get_or (missing_map 32 slots) (fno / 8) 0) (fno % 8) == 1)
      ≡ is_missing (get_or slots fno none)
bit-missing_map slots fno sized lt =
    let whole : 8 * (fno / 8) + fno % 8 ≡ fno = omega arith in
    ap (λ (t : ℕ). bit t (fno % 8) == 1) (get_or-missing_map 32 (fno / 8) slots (omega arith))
    ∙ (bit-map_octet (drop (8 * (fno / 8)) slots) 8 (fno % 8) (omega arith)
          (omega (arith, length-drop (8 * (fno / 8)) slots))
        ∙ ap is_missing (
            get_or-drop slots (8 * (fno / 8)) (fno % 8) none
            ∙ ap (λ (t : ℕ). get_or slots t none) whole))

get_or-apply_map :
    (marks : List Bool) (i frames k at : ℕ) (fif : List ℕ)
    → at ≡ i + k
    → k < length marks
    → at < frames
    → get_or (apply_map i frames fif marks) k false ≡ (bit (get_or fif (at / 8) 0) (at % 8) == 1)
unfolding apply_map
get_or-apply_map [] i frames k at fif place lt below = absurd (omega arith)
get_or-apply_map (m ∷ marks) i frames zero at fif place lt below =
    let here : at ≡ i = omega arith in
    let wanted : ltb i frames ≡ true = ground arith in rw (here, wanted) refl
get_or-apply_map (m ∷ marks) i frames (suc k) at fif place lt below =
    get_or-apply_map marks (suc i) frames k at fif (omega arith) (omega arith) below

-- A sender that gets the map of a receiver's 256 slots marks a frame of the block to be sent again
-- exactly if the receiver's slot for it is empty. The block has at most 256 frames.
pub ecm_apply_ppr-ppr_frame :
    (s : T30) (x : Bool) (slots : List (Option (List ℕ))) (frames fno : ℕ)
    → length slots ≡ 256
    → length s.tx.send ≡ 256
    → s.ecm_frames ≡ some frames
    → frames ≤ 256
    → fno < frames
    → get_or (ecm_apply_ppr s (ppr_frame x slots)).tx.send fno false
      ≡ is_missing (get_or slots fno none)
unfolding ecm_apply_ppr ppr_frame
ecm_apply_ppr-ppr_frame s x slots frames fno sized marked known most lt = rw known (
    get_or-apply_map s.tx.send 0 frames fno fno (missing_map 32 slots) (omega arith) (omega arith)
      lt
    ∙ bit-missing_map slots fno sized (omega arith))
