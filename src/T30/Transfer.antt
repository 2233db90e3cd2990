-- ===== src/T30/Transfer.antt =====
-- A block of an error-corrected page in nf_t30.c as the receiver sees it, over a link that loses
-- and repeats frames: a step relation on the engine's states.
use nospandsp_fax.Common.{ℕ, suc, ◌+◌, ◌*◌, ◌%◌, ◌≤◌, ◌<◌, ◌≡◌, refl, arith, ap, ◌∙◌}
use nospandsp_fax.Common.{Bool, true, false, none, some, List, [], ◌∷◌, ◌++◌, length}
use nospandsp_fax.Common.{◌⊎◌, inl, inr, get_or, ltb, not, ◌&&◌, Bool-cases}
use nospandsp_fax.Common.{length-set}
use nospandsp_fax.T30.Fcf
use nospandsp_fax.T30.State.{
  T30, Outside, Substate, a_recv_ecm, a_wait_pps, a_send_ppr, a_send_ecm_mcf, carrier_down,
  send_step_complete, with_x, Call, send_hdlc,
}
use nospandsp_fax.T30.Control.{simple_frame, tx_v21_frames}
use nospandsp_fax.T30.EcmSend.{frame_payload, fcd_frame, rcp_frame, memb}
use nospandsp_fax.T30.EcmReceive.{
  ecm_store_fcd, ecm_process_pps, ecm_send_ppr, all_here, accept_block, same_block, no_slots,
  locked, rx_max_page, ecm_rx_listen,
}
use nospandsp_fax.T30.Blocks.{
  Correct, Correct-set, append_slots_lem, block_octets, take-frame_payload,
}
use nospandsp_fax.T30.Answering.{on_hdlc, dispatch, in_a_recv_ecm, in_a_wait_pps}
use nospandsp_fax.T30.Status.{on_status, carrier_lost, step_complete, await}

-- A PPS for a block, with the number of frames of the burst, less one, as it goes out.
abbrev pub pps_frame : Bool → ℕ → ℕ → ℕ → ℕ → List ℕ
pps_frame x fcf2 page block count =
    0xFF ∷ 0x13 ∷ with_x x Fcf.pps ∷ fcf2 ∷ page ∷ block ∷ count ∷ []

-- Between a burst and the next command.
abbrev pub IsListening : Substate → Type 0
IsListening u = (u ≡ a_recv_ecm) ⊎ (u ≡ a_wait_pps)

module _ (o : Outside) (enc : List ℕ) (base frames page block : ℕ) where
  -- What can happen to a receiver while the block of `frames` frames at `base` of the page `enc` is
  -- on its way: one of its frames arrives, any number of times and in any order; a frame is
  -- damaged; the end of the burst; the carrier ends; a PPS comes too early, and is answered with a
  -- map of what is missing; the map is out.
  pub data Step : T30 → T30 → Type 0 where
    arrives :
        (s : T30) (i : ℕ)
        → i < 256
        → s.substate ≡ a_recv_ecm
        → Step s (on_hdlc o s (fcd_frame i (frame_payload enc base i)) true)
    damaged : (s : T30) (msg : List ℕ) → Step s (on_hdlc o s msg false)
    burst_ends : (s : T30) → s.substate ≡ a_recv_ecm → Step s (on_hdlc o s rcp_frame true)
    carrier_ends : (s : T30) → s.substate ≡ a_recv_ecm → Step s (on_status o s carrier_down)
    polled :
        (s : T30) (x : Bool) (fcf2 count : ℕ)
        → IsListening s.substate
        → locked s.ecm_frames (count + 1) ≡ frames
        → all_here frames s.rx.slots ≡ false
        → Step s (on_hdlc o s (pps_frame x fcf2 page block count) true)
    resumes : (s : T30) → s.substate ≡ a_send_ppr → Step s (on_status o s send_step_complete)

  pub data Reach (s : T30) : T30 → Type 0 where
    here : Reach s s
    next : {t u : T30} → Reach s t → Step t u → Reach s u

  -- The block is not complete, and what is there of it is right.
  pub record Receiving (had : List ℕ) (s : T30) : Type 0 where
    pub sized : length s.rx.slots ≡ 256
    pub right : Correct enc base 0 s.rx.slots
    pub kept : s.rx.page ≡ had
    pub size_known : (s.ecm_frames ≡ none) ⊎ (s.ecm_frames ≡ some frames)
    pub fresh : same_block s.rx.acked page block ≡ false

  -- The block is complete: its octets are on the page, and it is acknowledged.
  pub record Accepted (had : List ℕ) (s : T30) : Type 0 where
    pub appended : s.rx.page ≡ had ++ block_octets enc base 0 frames
    pub confirmed : s.substate ≡ a_send_ecm_mcf
    pub remembered : s.rx.acked ≡ some (page, block)
    pub cleared : s.rx.slots ≡ no_slots
    pub unlocked : s.ecm_frames ≡ none
    pub answered :
        (older : List Call) × (s.calls ≡ send_hdlc (simple_frame s.dis_received Fcf.mcf) ∷ older)

  same_rx :
      (had : List ℕ) (s t : T30)
      → t.rx ≡ s.rx
      → t.ecm_frames ≡ s.ecm_frames
      → Receiving had s
      → Receiving had t
  same_rx had s t same known h = record {
    sized = rw same (h.sized);
    right = rw same (h.right);
    kept = rw same (h.kept);
    size_known = rw known (h.size_known);
    fresh = rw same (h.fresh);
  }

  store_lem :
      (had : List ℕ) (s : T30) (i : ℕ)
      → i < 256
      → Receiving had s
      → Receiving had (ecm_store_fcd s (fcd_frame i (frame_payload enc base i)))
  unfolding ecm_store_fcd
  store_lem had s i lt h =
      let place : i % 256 ≡ i = omega arith in
      let whole : ltb (suc (suc (suc (suc (length (frame_payload enc base i)))))) 4 ≡ false =
        ground arith in
      rw (whole, place, take-frame_payload enc base i)
        (elim (Bool-cases (not (get_or s.rx.dropped_rx i false) && memb i s.config.drop_rx)) [
          | inl lost ↦ rw lost (record {
            sized = h.sized;
            right = h.right;
            kept = h.kept;
            size_known = h.size_known;
            fresh = h.fresh;
          })
          | inr stored ↦ rw stored (record {
            sized = length-set s.rx.slots i _ ∙ h.sized;
            right = Correct-set enc base s.rx.slots 0 i i (omega arith) (h.right);
            kept = h.kept;
            size_known = h.size_known;
            fresh = h.fresh;
          })
        ])

  arrives_lem :
      (had : List ℕ) (s : T30) (i : ℕ)
      → i < 256
      → s.substate ≡ a_recv_ecm
      → Receiving had s
      → Receiving had (on_hdlc o s (fcd_frame i (frame_payload enc base i)) true)
  unfolding on_hdlc dispatch in_a_recv_ecm
  arrives_lem had s i lt at h =
      let whole : ltb (suc (suc (suc (suc (length (frame_payload enc base i)))))) 3 ≡ false =
        ground arith in
      rw (whole, at)
        (store_lem had (record s { timeout = 0; substate = a_recv_ecm }) i lt
          (same_rx had s _ refl refl h))

  carrier_ends_lem :
      (had : List ℕ) (s : T30)
      → s.substate ≡ a_recv_ecm
      → Receiving had s
      → Receiving had (on_status o s carrier_down)
  unfolding on_status carrier_lost await
  carrier_ends_lem had s at h = same_rx had s _ (rw at refl) (rw at refl) h

  burst_ends_lem :
      (had : List ℕ) (s : T30)
      → s.substate ≡ a_recv_ecm
      → Receiving had s
      → Receiving had (on_hdlc o s rcp_frame true)
  unfolding on_hdlc dispatch in_a_recv_ecm
  burst_ends_lem had s at h = same_rx had s _ (rw at refl) (rw at refl) h

  resumes_lem :
      (had : List ℕ) (s : T30)
      → s.substate ≡ a_send_ppr
      → Receiving had s
      → Receiving had (on_status o s send_step_complete)
  unfolding on_status step_complete ecm_rx_listen
  resumes_lem had s at h = same_rx had s _ (rw at refl) (rw at refl) h

  damaged_lem :
      (had : List ℕ) (s : T30) (msg : List ℕ)
      → Receiving had s
      → Receiving had (on_hdlc o s msg false)
  unfolding on_hdlc
  damaged_lem had s msg h = h

  -- A PPS reaches `ecm_process_pps` from either substate.
  pub pps_handled :
      (s : T30) (x : Bool) (fcf2 count : ℕ)
      → IsListening s.substate
      → on_hdlc o s (pps_frame x fcf2 page block count) true
        ≡ ecm_process_pps (record s { timeout = 0 }) (pps_frame x fcf2 page block count)
  unfolding on_hdlc dispatch in_a_recv_ecm in_a_wait_pps
  pps_handled s true fcf2 count (inl at) = rw at refl
  pps_handled s true fcf2 count (inr at) = rw at refl
  pps_handled s false fcf2 count (inl at) = rw at refl
  pps_handled s false fcf2 count (inr at) = rw at refl

  asked_again :
      (had : List ℕ) (s : T30) (x : Bool) (fcf2 count : ℕ)
      → locked s.ecm_frames (count + 1) ≡ frames
      → all_here frames s.rx.slots ≡ false
      → Receiving had s
      → Receiving had (ecm_process_pps s (pps_frame x fcf2 page block count))
  unfolding ecm_process_pps ecm_send_ppr
  asked_again had s x fcf2 count size incomplete h =
      rw (h.fresh, size, incomplete)
        (record {
          sized = h.sized;
          right = h.right;
          kept = h.kept;
          size_known = inr refl;
          fresh = h.fresh;
        })

  polled_lem :
      (had : List ℕ) (s : T30) (x : Bool) (fcf2 count : ℕ)
      → IsListening s.substate
      → locked s.ecm_frames (count + 1) ≡ frames
      → all_here frames s.rx.slots ≡ false
      → Receiving had s
      → Receiving had (on_hdlc o s (pps_frame x fcf2 page block count) true)
  polled_lem had s x fcf2 count at size incomplete h = rw (pps_handled s x fcf2 count at) (
      asked_again had (record s { timeout = 0 }) x fcf2 count size incomplete
        (same_rx had s _ refl refl h))

  Step-Receiving : (had : List ℕ) {s t : T30} → Step s t → Receiving had s → Receiving had t
  Step-Receiving had (arrives s i lt at) h = arrives_lem had s i lt at h
  Step-Receiving had (damaged s msg) h = damaged_lem had s msg h
  Step-Receiving had (burst_ends s at) h = burst_ends_lem had s at h
  Step-Receiving had (carrier_ends s at) h = carrier_ends_lem had s at h
  Step-Receiving had (polled s x fcf2 count at size incomplete) h =
      polled_lem had s x fcf2 count at size incomplete h
  Step-Receiving had (resumes s at) h = resumes_lem had s at h

  Reach-Receiving : (had : List ℕ) {s t : T30} → Reach s t → Receiving had s → Receiving had t
  Reach-Receiving had here h = h
  Reach-Receiving had (next r st) h = Step-Receiving had st (Reach-Receiving had r h)

  accepted :
      (had : List ℕ) (s : T30) (x : Bool) (fcf2 count : ℕ)
      → locked s.ecm_frames (count + 1) ≡ frames
      → all_here frames s.rx.slots ≡ true
      → frames ≤ 256
      → length had + frames * 256 ≤ rx_max_page
      → Receiving had s
      → Accepted had (ecm_process_pps s (pps_frame x fcf2 page block count))
  unfolding ecm_process_pps accept_block tx_v21_frames
  accepted had s x fcf2 count size complete most room h =
      rw (h.fresh, size, complete)
        (record {
          appended =
              append_slots_lem enc base frames 0 s.rx.slots s.rx.page (h.right) complete
                (omega (arith, h.sized, most)) (rw (h.kept) room)
              ∙ ap (λ (t : List ℕ). t ++ block_octets enc base 0 frames) (h.kept);
          confirmed = refl;
          remembered = refl;
          cleared = refl;
          unlocked = refl;
          answered = (_, refl);
        })

  -- A receiver that starts a block with empty slots, and then gets the block's frames in any order
  -- with any losses and repetitions, any damaged frames and any number of early PPS, appends exactly
  -- the octets of the block to its page once it acknowledges a PPS, and is ready for another block.
  -- The block is not the one acknowledged last, it has at most 256 frames, and the page has room.
  pub Reach-Accepted :
      (s t : T30) (x : Bool) (fcf2 count : ℕ)
      → s.rx.slots ≡ no_slots
      → s.ecm_frames ≡ none
      → same_block s.rx.acked page block ≡ false
      → Reach s t
      → IsListening t.substate
      → locked t.ecm_frames (count + 1) ≡ frames
      → all_here frames t.rx.slots ≡ true
      → frames ≤ 256
      → length s.rx.page + frames * 256 ≤ rx_max_page
      → Accepted s.rx.page (on_hdlc o t (pps_frame x fcf2 page block count) true)
  Reach-Accepted s t x fcf2 count empty unknown fresh r at size complete most room =
      let h : Receiving (s.rx.page) s = record {
        sized = rw empty refl;
        right = rw empty tt;
        kept = refl;
        size_known = inl unknown;
        fresh = fresh;
      } in
      let h' : Receiving (s.rx.page) (record t { timeout = 0 }) =
        same_rx (s.rx.page) t _ refl refl (Reach-Receiving (s.rx.page) r h) in
      rw (pps_handled t x fcf2 count at)
        (accepted (s.rx.page) (record t { timeout = 0 }) x fcf2 count size complete most room h')
