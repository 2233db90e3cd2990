-- ===== src/T30/Endings.antt =====
-- How a call of nf_t30.c ends: a call that has ended stays so, and a silent line ends one.
use nospandsp_fax.Common.{ℕ, ◌-◌, ◌≡◌, refl, ap, sym}
use nospandsp_fax.Common.{Bool, true, false, List, [], ◌∷◌, length, ltb, leb, ◌==◌}
use nospandsp_fax.Common.{not, ◌||◌, if◌then◌else◌, if_both}
use nospandsp_fax.T30.Fcf
use nospandsp_fax.T30.State.{
  T30, Outside, Substate, Status, st_done, Written, Outcome, training_succeeded, training_failed,
  send_step_complete, carrier_down, other, err_timeout, a_recv_tcf, a_recv_image, Stats,
}
use nospandsp_fax.T30.Control.{finish, send_simple}
use nospandsp_fax.T30.Answering.{on_hdlc, dispatch}
use mathlib.Core.Path.{subst}
use nospandsp_fax.T30.Pages.{tcf_bit, image_bit}
use nospandsp_fax.T30.Status.{on_status, trained, not_trained, step_complete, carrier_lost}
use nospandsp_fax.T30.Engine.{Event, frame, status, put, timer, step, on_put_bit, on_timer, expired}

-- The events of a call, in order, in surroundings that may change.
unfoldable pub run : T30 → List (Outside × Event) → T30
run s [] = s
run s ((o, e) ∷ events) = run (step o s e) events

-- A call that has ended with this result, these statistics and these documents.
pub record Ended (what : Outcome) (figures : Stats) (documents : List Written) (s : T30)
    : Type 0 where
  pub at : s.substate ≡ st_done
  pub over : s.finished ≡ true
  pub result_is : s.result ≡ what
  pub stats_are : s.stats ≡ figures
  pub written_is : s.written ≡ documents

module _ (what : Outcome) (figures : Stats) (documents : List Written) where
  abbrev Over : T30 → Type 0
  Over s = Ended what figures documents s

  frame_ignored :
      (o : Outside) (s : T30) (msg : List ℕ) (good : Bool) → Over s → Over (on_hdlc o s msg good)
  unfolding on_hdlc dispatch
  frame_ignored o s msg good h =
      let s1 : T30 = record s { timeout = 0 } in
      let h1 : Over s1 = record {
        at = h.at;
        over = h.over;
        result_is = h.result_is;
        stats_are = h.stats_are;
        written_is = h.written_is;
      } in
      if_both Over (not good || ltb (length msg) 3) h
        (subst (λ (u : Substate). Over (dispatch o u s1 msg)) (sym (h.at)) h1)

  status_ignored : (o : Outside) (s : T30) (news : Status) → Over s → Over (on_status o s news)
  unfolding on_status trained not_trained step_complete carrier_lost
  status_ignored o s training_succeeded h =
      subst (λ (u : Substate). Over (trained o u s)) (sym (h.at)) h
  status_ignored o s training_failed h =
      subst (λ (u : Substate). Over (not_trained o u s)) (sym (h.at)) h
  status_ignored o s send_step_complete h =
      subst (λ (u : Substate). Over (step_complete o u s)) (sym (h.at)) h
  status_ignored o s carrier_down h =
      subst (λ (u : Substate). Over (carrier_lost u s)) (sym (h.at)) h
  status_ignored o s other h = h

  bit_ignored : (s : T30) (b : ℕ) → Over s → Over (on_put_bit s b)
  unfolding on_put_bit
  bit_ignored s b h =
      subst
        (λ (u : Substate). Over (elim u as (λ _. T30) [
          | a_recv_tcf ↦ tcf_bit s b
          | a_recv_image ↦ image_bit s b
          | _ ↦ s
        ]))
        (sym (h.at)) h

  -- A timer that was left running only sends a DCN.
  finish_ignored : (o : Outside) (s : T30) (r : Outcome) → Over s → Over (finish o s r)
  unfolding finish
  finish_ignored o s r h =
      subst Over
        (ap (λ (b : Bool). if b then s else finish o (record s { finished = false }) r)
          (sym (h.over)))
        h

  timer_ignored : (o : Outside) (s : T30) (samples : ℕ) → Over s → Over (on_timer o s samples)
  unfolding on_timer expired
  timer_ignored o s samples h =
      let s1 : T30 = record s { timeout = s.timeout - samples } in
      let h1 : Over s1 = record {
        at = h.at;
        over = h.over;
        result_is = h.result_is;
        stats_are = h.stats_are;
        written_is = h.written_is;
      } in
      let s2 : T30 = send_simple s1 Fcf.dcn in
      let h2 : Over s2 = record {
        at = h.at;
        over = h.over;
        result_is = h.result_is;
        stats_are = h.stats_are;
        written_is = h.written_is;
      } in
      if_both Over (s.timeout == 0) h (
        if_both Over (leb s.timeout samples)
          (subst (λ (u : Substate). Over (expired o u s1)) (sym (h.at))
            (finish_ignored o s2 err_timeout h2))
          h1)

  step_ignored : (o : Outside) (s : T30) (e : Event) → Over s → Over (step o s e)
  unfolding step
  step_ignored o s (frame msg good) h = frame_ignored o s msg good h
  step_ignored o s (status news) h = status_ignored o s news h
  step_ignored o s (put b) h = bit_ignored s b h
  step_ignored o s (timer samples) h = timer_ignored o s samples h

-- Once a call has ended, no sequence of frames, events of the backend, bits and ticks of the clock
-- takes it up again or changes its result, its statistics or the documents received.
pub run-Ended :
    (s : T30) (events : List (Outside × Event))
    → s.substate ≡ st_done
    → s.finished ≡ true
    → Ended s.result s.stats s.written (run s events)
unfolding run
run-Ended s events at over =
    all_ignored s events
      (record { at = at; over = over; result_is = refl; stats_are = refl; written_is = refl })
  where
    all_ignored :
        (t : T30) (events : List (Outside × Event))
        → Ended s.result s.stats s.written t
        → Ended s.result s.stats s.written (run t events)
    all_ignored t [] h = h
    all_ignored t ((o, e) ∷ events) h =
        all_ignored (step o t e) events (step_ignored (s.result) (s.stats) (s.written) o t e h)
