-- ===== src/T30/Completion.antt =====
-- A burst of an error-corrected page in nf_t30.c that arrives whole completes the receiver's block.
use nospandsp_fax.Common.{ℕ, zero, suc, ◌+◌, ◌%◌, ◌≤◌, ◌<◌, ◌≡◌, ◌≢◌, refl, arith, ap, sym}
use nospandsp_fax.Common.{Bool, true, false, Option, none, some, List, [], ◌∷◌, ◌++◌, length, ◌∙◌}
use nospandsp_fax.Common.{
  get_or, set, ltb, not, ◌==◌, Bool-cases, inl, inr, and_false, if◌then◌else◌,
}
use nospandsp_fax.Common.{drop, length-set, get_or-set_self, get_or-set_ne, ◌⊎◌, ==_iff}
use mathlib.Core.Path.{subst}
use nospandsp_fax.T30.State.{T30, Outside, Substate, a_recv_ecm}
use nospandsp_fax.T30.Tables.{t30_info_off}
use nospandsp_fax.T30.EcmSend.{
  frame_payload, fcd_frame, rcp_frame, memb, ecm_start_burst, ecm_apply_ppr, apply_map,
}
use nospandsp_fax.T30.EcmReceive.{ecm_store_fcd, all_here, is_missing, ppr_frame}
use nospandsp_fax.T30.Blocks.{take-frame_payload}
use nospandsp_fax.T30.Recovery.{ecm_apply_ppr-ppr_frame}
use nospandsp_fax.T30.Answering.{on_hdlc, dispatch, in_a_recv_ecm}
use nospandsp_fax.T30.Burst.{wanted_frames, pull_all, burst_given}

-- The frames of a burst, each received with a good check sequence.
abbrev pub deliver : Outside → T30 → List (List ℕ) → T30
deliver o s [] = s
deliver o s (msg ∷ msgs) = deliver o (on_hdlc o s msg true) msgs

deliver-append :
    (o : Outside) (s : T30) (xs ys : List (List ℕ))
    → deliver o s (xs ++ ys) ≡ deliver o (deliver o s xs) ys
deliver-append o s [] ys = refl
deliver-append o s (x ∷ xs) ys = deliver-append o (on_hdlc o s x true) xs ys

-- Slot `k` is filled.
abbrev pub Has : ℕ → T30 → Type 0
Has k s = is_missing (get_or s.rx.slots k none) ≡ false

all_here-Has :
    (frames : ℕ) (slots : List (Option (List ℕ)))
    → ((k : ℕ) → k < frames → is_missing (get_or slots k none) ≡ false)
    → all_here frames slots ≡ true
unfolding all_here
all_here-Has zero slots h = refl
all_here-Has (suc frames) [] h = refl
all_here-Has (suc frames) (slot ∷ slots) h =
    rw (h 0 (omega arith)) (all_here-Has frames slots (λ k lt. h (suc k) (omega arith)))

module _ (o : Outside) (enc : List ℕ) (base : ℕ) where
  -- The receiver listens to a burst, and no test hook is set.
  pub record Open (s : T30) : Type 0 where
    pub at : s.substate ≡ a_recv_ecm
    pub no_drops : s.config.drop_rx ≡ []
    pub sized : length s.rx.slots ≡ 256

  -- The state with slot `i` filled with its frame.
  abbrev filled : T30 → ℕ → T30
  filled s i = record s {
    timeout = 0;
    rx = record (s.rx) { slots = set s.rx.slots i (some (frame_payload enc base i)) };
  }

  stored :
      (s : T30) (i : ℕ)
      → i < 256
      → s.config.drop_rx ≡ []
      → ecm_store_fcd s (fcd_frame i (frame_payload enc base i)) ≡ record s {
        rx = record (s.rx) { slots = set s.rx.slots i (some (frame_payload enc base i)) };
      }
  unfolding ecm_store_fcd memb
  stored s i lt no_drops =
      let place : i % 256 ≡ i = omega arith in
      let whole : ltb (suc (suc (suc (suc (length (frame_payload enc base i)))))) 4 ≡ false =
        ground arith in
      rw (whole, place, take-frame_payload enc base i, no_drops)
        (rw (and_false (not (get_or s.rx.dropped_rx i false))) refl)

  received :
      (s : T30) (i : ℕ)
      → i < 256
      → Open s
      → on_hdlc o s (fcd_frame i (frame_payload enc base i)) true ≡ filled s i
  unfolding on_hdlc dispatch in_a_recv_ecm
  received s i lt h =
      let s1 : T30 = record s { timeout = 0 } in
      let msg = fcd_frame i (frame_payload enc base i) in
      let whole : ltb (suc (suc (suc (suc (length (frame_payload enc base i)))))) 3 ≡ false =
        ground arith in
      let dispatched : on_hdlc o s msg true ≡ dispatch o s.substate s1 msg =
        ap (λ (b : Bool). if b then s else dispatch o s.substate s1 msg) whole in
      dispatched ∙ (ap (λ (u : Substate). dispatch o u s1 msg) (h.at) ∙ stored s1 i lt (h.no_drops))

  filled-Open : (s : T30) (i : ℕ) → Open s → Open (filled s i)
  filled-Open s i h = record {
    at = h.at;
    no_drops = h.no_drops;
    sized = length-set s.rx.slots i _ ∙ h.sized;
  }

  filled-Has : (s : T30) (i k : ℕ) → i < 256 → Open s → (Has k s) ⊎ (k ≡ i) → Has k (filled s i)
  filled-Has s i k lt h had = elim (Bool-cases (k == i)) [
    | inl here ↦
        let same : k ≡ i = (==_iff k i).0 here in
        rw same (ap is_missing (get_or-set_self s.rx.slots i _ none (omega (arith, h.sized))))
    | inr other ↦
        let ne : i ≢ k = λ e. ground arith in
        ap is_missing (get_or-set_ne s.rx.slots i k _ none ne) ∙ kept had other
  ]
    where
      kept : (Has k s) ⊎ (k ≡ i) → (k == i) ≡ false → Has k s
      kept (inl h) other = h
      kept (inr e) other = ground arith

  -- Delivering the marked ones of the frames from `i` on fills their slots and empties none.
  abbrev Due : List Bool → ℕ → ℕ → T30 → ℕ → Type 0
  Due marks left i s k = (Has k s) ⊎ ((i ≤ k) × (k < i + left) × (get_or marks k false ≡ true))

  abbrev Fills : List Bool → ℕ → ℕ → T30 → T30 → Type 0
  Fills marks left i s t = Open t × ((k : ℕ) → Due marks left i s k → Has k t)

  deliver-wanted_frames :
      (marks : List Bool) (left i : ℕ) (s : T30)
      → i + left ≤ 256
      → Open s
      → Fills marks left i s (deliver o s (wanted_frames enc base marks left i))
  unfolding wanted_frames
  deliver-wanted_frames marks zero i s room h = (h, at_slot)
    where
      at_slot : (k : ℕ) → Due marks zero i s k → Has k s
      at_slot k (inl had) = had
      at_slot k (inr (from, below, on)) = absurd (omega arith)
  deliver-wanted_frames marks (suc left) i s room h =
      let one = fcd_frame i (frame_payload enc base i) in
      let rest = wanted_frames enc base marks left (i + 1) in
      let chosen : Bool → T30 = λ b. deliver o s (if b then one ∷ rest else rest) in
      elim (Bool-cases (get_or marks i false)) [
        | inl on ↦
            let (h', has') =
              deliver-wanted_frames marks left (i + 1) (filled s i) (omega arith)
                (filled-Open s i h) in
            let same : chosen (get_or marks i false) ≡ deliver o (filled s i) rest =
              ap chosen on ∙ ap (λ (t : T30). deliver o t rest) (received s i (omega arith) h) in
            subst (λ (t : T30). Fills marks (suc left) i s t) (sym same)
              (h', λ k had. has' k (moved k had))
        | inr off ↦
            let (h', has') = deliver-wanted_frames marks left (i + 1) s (omega arith) h in
            subst (λ (t : T30). Fills marks (suc left) i s t) (sym (ap chosen off))
              (h', λ k had. has' k (passed off k had))
      ]
    where
      moved :
          (k : ℕ)
          → Due marks (suc left) i s k
          → (Has k (filled s i))
            ⊎ ((i + 1 ≤ k) × (k < i + 1 + left) × (get_or marks k false ≡ true))
      moved k (inl had) = inl (filled-Has s i k (omega arith) h (inl had))
      moved k (inr (from, below, on)) = elim (Bool-cases (k == i)) [
        | inl here ↦ inl (filled-Has s i k (omega arith) h (inr ((==_iff k i).0 here)))
        | inr other ↦ inr (ground arith)
      ]

      passed :
          get_or marks i false ≡ false
          → (k : ℕ) → Due marks (suc left) i s k
          → (Has k s) ⊎ ((i + 1 ≤ k) × (k < i + 1 + left) × (get_or marks k false ≡ true))
      passed off k (inl had) = inl had
      passed off k (inr (from, below, on)) = elim (Bool-cases (k == i)) [
        | inl here ↦
            let same : k ≡ i = (==_iff k i).0 here in
            let on' : get_or marks i false ≡ true = rw same at on in cc
        | inr other ↦ inr (ground arith)
      ]

-- An RCP only stops the timer.
rcp_received :
    (o : Outside) (s : T30)
    → s.substate ≡ a_recv_ecm
    → on_hdlc o s rcp_frame true ≡ record s { timeout = 0 }
unfolding on_hdlc dispatch in_a_recv_ecm
rcp_received o s at = ap (λ (u : Substate). dispatch o u (record s { timeout = 0 }) rcp_frame) at

abbrev three_rcp : List (List ℕ)
three_rcp = rcp_frame ∷ rcp_frame ∷ rcp_frame ∷ []

deliver-three_rcp :
    (o : Outside) (s : T30)
    → s.substate ≡ a_recv_ecm
    → deliver o s three_rcp ≡ record s { timeout = 0 }
deliver-three_rcp o s at =
    ap (λ (t : T30). deliver o t (rcp_frame ∷ rcp_frame ∷ [])) (rcp_received o s at)
    ∙ (ap (λ (t : T30). deliver o t (rcp_frame ∷ [])) (rcp_received o (record s { timeout = 0 }) at)
        ∙ rcp_received o (record s { timeout = 0 }) at)

ecm_apply_ppr_rest :
    (s : T30) (msg : List ℕ)
    → (marks : List Bool) × (ecm_apply_ppr s msg ≡ record s { tx = record (s.tx) { send = marks } })
unfolding ecm_apply_ppr
ecm_apply_ppr_rest s msg = chosen (ltb (length msg) 35) (s.ecm_frames)
  where
    chosen :
        (short : Bool) (known : Option ℕ)
        → (marks : List Bool) × ((if short then s else elim known as (λ _. T30) [
          | none ↦ s
          | some frames ↦ record s {
            tx = record (s.tx) { send = apply_map 0 frames (drop t30_info_off msg) s.tx.send };
          }
        ])
            ≡ record s { tx = record (s.tx) { send = marks } })
    chosen true known = (s.tx.send, refl)
    chosen false none = (s.tx.send, refl)
    chosen false (some frames) = (apply_map 0 frames (drop t30_info_off msg) s.tx.send, refl)

-- A sender that has got the map of what a receiver is missing of a block of at most 256 frames
-- completes the block with its next burst, if the burst arrives whole: the backend is given the
-- frames in at most `frames + 3` calls, and the receiver, which listens to it, then has every frame.
-- No control burst is pending and no test hook is set.
pub deliver-all_here :
    (o : Outside) (s r : T30) (x : Bool) (frames n : ℕ)
    → s.cburst ≡ none
    → s.config.drop_above_rate ≡ 0
    → s.config.drop_tx ≡ []
    → s.ecm_frames ≡ some frames
    → length s.tx.send ≡ 256
    → frames ≤ 256
    → frames + 3 ≤ n
    → r.substate ≡ a_recv_ecm
    → r.config.drop_rx ≡ []
    → length r.rx.slots ≡ 256
    → (let burst = pull_all n (ecm_start_burst (ecm_apply_ppr s (ppr_frame x r.rx.slots))) in
        (all_here frames (deliver o r burst).rx.slots ≡ true)
        × ((deliver o r burst).substate ≡ a_recv_ecm))
deliver-all_here o s r x frames n quiet no_rate no_drops known marked most enough at unhooked
      sized =
    let msg = ppr_frame x r.rx.slots in
    let (marks, applied) = ecm_apply_ppr_rest s msg in
    let s' : T30 = record s { tx = record (s.tx) { send = marks } } in
    let wanted = wanted_frames s.doc.enc s.tx.tx_base marks frames 0 in
    let burst : pull_all n (ecm_start_burst (ecm_apply_ppr s msg)) ≡ wanted ++ three_rcp =
      ap (λ (t : T30). pull_all n (ecm_start_burst t)) applied
      ∙ burst_given s' frames n quiet no_rate no_drops known enough in
    let (ready, has) =
      deliver-wanted_frames o (s.doc.enc) (s.tx.tx_base) marks frames 0 r (omega arith)
        (record { at = at; no_drops = unhooked; sized = sized }) in
    let due : (k : ℕ) → k < frames → Has k (deliver o r wanted) = λ k lt.
      let asked : get_or marks k false ≡ is_missing (get_or r.rx.slots k none) =
        ap (λ (t : T30). get_or t.tx.send k false) (sym applied)
        ∙ ecm_apply_ppr-ppr_frame s x r.rx.slots frames k sized marked known most lt in
      has k (asked_or_had marks k lt asked) in
    let after : deliver o r (pull_all n (ecm_start_burst (ecm_apply_ppr s msg)))
        ≡ record (deliver o r wanted) { timeout = 0 } =
      ap (deliver o r) burst
      ∙ (deliver-append o r wanted three_rcp
          ∙ deliver-three_rcp o (deliver o r wanted) (ready.at)) in
    (
      ap (λ (t : T30). all_here frames t.rx.slots) after
          ∙ all_here-Has frames ((deliver o r wanted).rx.slots) due,
      ap (λ (t : T30). t.substate) after ∙ ready.at,
    )
  where
    asked_or_had :
        (marks : List Bool) (k : ℕ)
        → k < frames
        → get_or marks k false ≡ is_missing (get_or r.rx.slots k none)
        → (Has k r) ⊎ ((0 ≤ k) × (k < 0 + frames) × (get_or marks k false ≡ true))
    asked_or_had marks k lt asked = elim (Bool-cases (is_missing (get_or r.rx.slots k none))) [
      | inl missing ↦ inr (omega arith, omega arith, asked ∙ missing)
      | inr here ↦ inl here
    ]
