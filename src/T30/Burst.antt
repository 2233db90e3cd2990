-- ===== src/T30/Burst.antt =====
-- A burst of an error-corrected page in nf_t30.c: what the backend gets when it asks for frames.
use nospandsp_fax.Common.{ℕ, zero, suc, ◌+◌, ◌-◌, ◌≤◌, ◌<◌, ◌≡◌, refl, arith, ap, sym, ◌∙◌}
use nospandsp_fax.Common.{Bool, true, false, Option, none, some, List, [], ◌∷◌, ◌++◌}
use nospandsp_fax.Common.{
  replicate, get_or, ltb, not, Bool-cases, inl, inr, and_false, if◌then◌else◌,
}
use nospandsp_fax.T30.State.{T30, EcmTx, Substate, c_send_ecm}
use nospandsp_fax.T30.EcmSend.{
  frame_payload, fcd_frame, rcp_frame, on_get_frame, next_frame, pull_frame, frames_left, memb,
  ecm_start_burst, withheld, dropped, serve, Pull, passed_over, sent,
}

-- The frames that a backend is given until there are none, `n` at most.
unfoldable pub pull_all : ℕ → T30 → List (List ℕ)
pull_all zero s = []
pull_all (suc n) s =
    let more = pull_all n (on_get_frame s).0 in
    elim ((on_get_frame s).1) [ [] ↦ [] | x ∷ xs ↦ (x ∷ xs) ∷ more ]

-- Of the `left` frames from frame `i` on, those that are marked.
unfoldable pub wanted_frames : List ℕ → ℕ → List Bool → ℕ → ℕ → List (List ℕ)
wanted_frames enc base marks zero i = []
wanted_frames enc base marks (suc left) i =
    let rest = wanted_frames enc base marks left (i + 1) in
    if get_or marks i false then fcd_frame i (frame_payload enc base i) ∷ rest else rest

third_branch :
    (a b c : Bool) (t u v w : Pull)
    → a ≡ false
    → b ≡ false
    → c ≡ false
    → (if a then t else if b then u else if c then v else w) ≡ w
third_branch a b c t u v w no_a no_b no_c = rw (no_a, no_b, no_c) refl

module _ (enc : List ℕ) (base frames : ℕ) (marks : List Bool) where
  -- The sender is in a burst, at frame `i` with `r` RCP frames to send, and no test hook is set.
  pub record Sending (i r : ℕ) (s : T30) : Type 0 where
    pub at : s.substate ≡ c_send_ecm
    pub no_cburst : s.cburst ≡ none
    pub no_rate : s.config.drop_above_rate ≡ 0
    pub no_drops : s.config.drop_tx ≡ []
    pub known : s.ecm_frames ≡ some frames
    pub page : s.doc.enc ≡ enc
    pub start : s.tx.tx_base ≡ base
    pub marked : s.tx.send ≡ marks
    pub cursor : s.tx.cursor ≡ i
    pub rcp_left : s.tx.rcp_left ≡ r

  got_frame :
      (i r left : ℕ) (s : T30)
      → i + left ≡ frames
      → Sending i r s
      → on_get_frame s ≡ next_frame left s
  unfolding on_get_frame serve
  got_frame i r left s rest h =
      ap (λ (b : Option (List (List ℕ))). serve b s.substate s) (h.no_cburst)
      ∙ (ap (λ (u : Substate). serve none u s) (h.at)
          ∙ (ap (λ (f : Option ℕ). next_frame (frames_left f s.tx.cursor) s) (h.known)
              ∙ ap (λ (k : ℕ). next_frame k s) (omega (arith, rest, h.cursor))))

  passed_lem :
      (i r : ℕ) (s : T30)
      → Sending i r s
      → get_or marks i false ≡ false
      → (s' : T30) × (pull_frame s ≡ passed_over s') × Sending (i + 1) r s'
  unfolding pull_frame
  passed_lem i r s h unmarked =
      let skipped : get_or s.tx.send s.tx.cursor false ≡ false =
        ap (λ (l : List Bool). get_or l s.tx.cursor false) (h.marked)
        ∙ (ap (λ (k : ℕ). get_or marks k false) (h.cursor) ∙ unmarked) in
      (
        record s { tx = record (s.tx) { cursor = s.tx.cursor + 1 } },
        simp skipped refl,
        record {
          at = h.at;
          no_cburst = h.no_cburst;
          no_rate = h.no_rate;
          no_drops = h.no_drops;
          known = h.known;
          page = h.page;
          start = h.start;
          marked = h.marked;
          cursor = ap (λ (k : ℕ). k + 1) (h.cursor);
          rcp_left = h.rcp_left;
        },
      )

  frame_lem :
      (i r : ℕ) (s : T30)
      → Sending i r s
      → fcd_frame s.tx.cursor (frame_payload s.doc.enc s.tx.tx_base s.tx.cursor)
        ≡ fcd_frame i (frame_payload enc base i)
  frame_lem i r s h =
      ap (λ (k : ℕ). fcd_frame k (frame_payload s.doc.enc s.tx.tx_base k)) (h.cursor)
      ∙ (ap (λ (b : ℕ). fcd_frame i (frame_payload s.doc.enc b i)) (h.start)
          ∙ ap (λ (e : List ℕ). fcd_frame i (frame_payload e base i)) (h.page))

  sent_lem :
      (i r : ℕ) (s : T30)
      → Sending i r s
      → get_or marks i false ≡ true
      → (s' : T30) × (pull_frame s ≡ sent s' (fcd_frame i (frame_payload enc base i)))
        × Sending (i + 1) r s'
  unfolding pull_frame memb
  sent_lem i r s h marked_on =
      let wanted : get_or s.tx.send s.tx.cursor false ≡ true =
        ap (λ (l : List Bool). get_or l s.tx.cursor false) (h.marked)
        ∙ (ap (λ (k : ℕ). get_or marks k false) (h.cursor) ∙ marked_on) in
      let next : EcmTx = record (s.tx) { cursor = s.tx.cursor + 1; burst = s.tx.burst + 1 } in
      (
        record s { tx = next },
        third_branch (not (get_or s.tx.send s.tx.cursor false)) (withheld s) (dropped s s.tx.cursor)
              _ _ _ _ (ap not wanted) (rw (h.no_rate) refl)
              (rw (h.no_drops) (and_false (not (get_or s.tx.dropped_tx s.tx.cursor false))))
            ∙ ap (λ (f : List ℕ). sent (record s { tx = next }) f) (frame_lem i r s h),
        record {
          at = h.at;
          no_cburst = h.no_cburst;
          no_rate = h.no_rate;
          no_drops = h.no_drops;
          known = h.known;
          page = h.page;
          start = h.start;
          marked = h.marked;
          cursor = ap (λ (k : ℕ). k + 1) (h.cursor);
          rcp_left = h.rcp_left;
        },
      )

  -- The rest of a pull, given the state and the frame that came of it.
  abbrev after : ℕ → T30 × List ℕ → List (List ℕ)
  after n (s, []) = []
  after n (s, (x ∷ xs)) = (x ∷ xs) ∷ pull_all n s

  pull_all-suc :
      (n : ℕ) (s : T30) (p : T30 × List ℕ) → on_get_frame s ≡ p → pull_all (suc n) s ≡ after n p
  unfolding pull_all
  pull_all-suc n s p got = pulled (on_get_frame s) ∙ ap (after n) got
    where
      pulled :
          (q : T30 × List ℕ)
          → elim (q.1) as (λ _. List (List ℕ)) [ [] ↦ [] | x ∷ xs ↦ (x ∷ xs) ∷ pull_all n q.0 ]
            ≡ after n q
      pulled (s, []) = refl
      pulled (s, (x ∷ xs)) = refl

  rcp_lem : (r n : ℕ) (s : T30) → Sending frames r s → r ≤ n → pull_all n s ≡ replicate r rcp_frame
  unfolding next_frame pull_all
  rcp_lem zero zero s h lt = refl
  rcp_lem (suc r) zero s h lt = absurd (omega arith)
  rcp_lem zero (suc n) s h lt =
      let ended : next_frame 0 s ≡ (s, []) =
        ap
          (λ (b : Bool).
            if b
            then (record s { tx = record (s.tx) { rcp_left = s.tx.rcp_left - 1 } }, rcp_frame)
            else (s, []))
          (ap (λ (k : ℕ). ltb 0 k) (h.rcp_left)) in
      pull_all-suc n s (s, []) (got_frame frames 0 0 s (omega arith) h ∙ ended)
  rcp_lem (suc r) (suc n) s h lt =
      let s' : T30 = record s { tx = record (s.tx) { rcp_left = s.tx.rcp_left - 1 } } in
      let some_left : ltb 0 s.tx.rcp_left ≡ true = ground (arith, h.rcp_left) in
      let one : next_frame 0 s ≡ (s', rcp_frame) =
        ap (λ (b : Bool). if b then (s', rcp_frame) else (s, [])) some_left in
      let h' : Sending frames r s' = record {
        at = h.at;
        no_cburst = h.no_cburst;
        no_rate = h.no_rate;
        no_drops = h.no_drops;
        known = h.known;
        page = h.page;
        start = h.start;
        marked = h.marked;
        cursor = h.cursor;
        rcp_left = omega (arith, h.rcp_left);
      } in
      pull_all-suc n s (s', rcp_frame) (got_frame frames (suc r) 0 s (omega arith) h ∙ one)
      ∙ ap (λ (t : List (List ℕ)). rcp_frame ∷ t) (rcp_lem r n s' h' (omega arith))

  next_frame_of : ℕ → Pull → T30 × List ℕ
  next_frame_of left (passed_over s) = next_frame left s
  next_frame_of left (sent s f) = (s, f)

  next_frame-suc :
      (left : ℕ) (s : T30) (p : Pull)
      → pull_frame s ≡ p
      → next_frame (suc left) s ≡ next_frame_of left p
  unfolding next_frame next_frame_of
  next_frame-suc left s p got = split (pull_frame s) ∙ ap (next_frame_of left) got
    where
      split :
          (q : Pull)
          → elim q as (λ _. T30 × List ℕ) [
            | passed_over s' ↦ next_frame left s'
            | sent s' f ↦ (s', f)
          ]
            ≡ next_frame_of left q
      split (passed_over s) = refl
      split (sent s f) = refl

  pull_all-wanted :
      (left n i r : ℕ) (s : T30)
      → i + left ≡ frames
      → Sending i r s
      → left + r ≤ n
      → pull_all n s ≡ wanted_frames enc base marks left i ++ replicate r rcp_frame
  unfolding wanted_frames next_frame_of
  pull_all-wanted zero zero i r s rest h lt =
      let last : i ≡ frames = omega arith in rcp_lem r zero s (rw last at h) (omega arith)
  pull_all-wanted (suc left) zero i r s rest h lt = absurd (omega arith)
  pull_all-wanted zero (suc n) i r s rest h lt =
      let last : i ≡ frames = omega arith in rcp_lem r (suc n) s (rw last at h) (omega arith)
  pull_all-wanted (suc left) (suc n) i r s rest h lt = elim (Bool-cases (get_or marks i false)) [
    | inl on ↦
        let (s', got, h') = sent_lem i r s h on in
        rw on (
          pull_all-suc n s (s', fcd_frame i (frame_payload enc base i))
            (got_frame i r (suc left) s rest h ∙ next_frame-suc left s _ got)
          ∙ ap (λ (t : List (List ℕ)). fcd_frame i (frame_payload enc base i) ∷ t)
              (pull_all-wanted left n (i + 1) r s' (omega arith) h' (omega arith)))
    | inr off ↦
        let (s', got, h') = passed_lem i r s h off in
        rw off (
          pull_all-suc n s _ (got_frame i r (suc left) s rest h ∙ next_frame-suc left s _ got)
          ∙ (sym (pull_all-suc n s' _ (got_frame (i + 1) r left s' (omega arith) h'))
              ∙ pull_all-wanted left (suc n) (i + 1) r s' (omega arith) h' (omega arith)))
  ]

-- As many calls as there are frames, and three more, are enough for the whole burst.
pub burst_given :
    (s : T30) (frames n : ℕ)
    → s.cburst ≡ none
    → s.config.drop_above_rate ≡ 0
    → s.config.drop_tx ≡ []
    → s.ecm_frames ≡ some frames
    → frames + 3 ≤ n
    → pull_all n (ecm_start_burst s)
      ≡ wanted_frames s.doc.enc s.tx.tx_base s.tx.send frames 0
        ++ (rcp_frame ∷ rcp_frame ∷ rcp_frame ∷ [])
unfolding ecm_start_burst
burst_given s frames n quiet no_rate no_drops known enough =
    pull_all-wanted (s.doc.enc) (s.tx.tx_base) frames (s.tx.send) frames n 0 3 (ecm_start_burst s)
      (omega arith)
      (record {
        at = refl;
        no_cburst = quiet;
        no_rate = no_rate;
        no_drops = no_drops;
        known = known;
        page = refl;
        start = refl;
        marked = refl;
        cursor = refl;
        rcp_left = refl;
      })
      enough

-- The burst that follows `ecm_start_burst`, with no control burst pending and no test hook set: the
-- backend is given the marked frames of the block in order, with the octets of the page or zeros
-- behind its end, then three RCP frames, and then, if it asks once more, nothing.
pub pull_all-ecm_start_burst :
    (s : T30) (frames n : ℕ)
    → s.cburst ≡ none
    → s.config.drop_above_rate ≡ 0
    → s.config.drop_tx ≡ []
    → s.ecm_frames ≡ some frames
    → frames + 3 < n
    → pull_all n (ecm_start_burst s)
      ≡ wanted_frames s.doc.enc s.tx.tx_base s.tx.send frames 0
        ++ (rcp_frame ∷ rcp_frame ∷ rcp_frame ∷ [])
pull_all-ecm_start_burst s frames n quiet no_rate no_drops known enough =
    burst_given s frames n quiet no_rate no_drops known (omega arith)
