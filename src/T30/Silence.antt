-- ===== src/T30/Silence.antt =====
-- A silent line: every wait of nf_t30.c for an answer ends in the end of the call.
use nospandsp_fax.Common.{ℕ, zero, suc, ◌+◌, ◌-◌, ◌<◌, ◌≡◌, ◌≢◌, refl, arith, ap, sym, ◌∙◌}
use nospandsp_fax.Common.{Bool, true, false, ltb, leb, ◌==◌, not, ◌&&◌}
use nospandsp_fax.Common.{if◌then◌else◌, if_both, length}
use mathlib.Core.Path.{subst}
use nospandsp_fax.T30.Fcf
use nospandsp_fax.T30.State.{
  T30, Outside, Substate, st_done, send_step_complete, err_timeout, c_wait_mcf, c_wait_pps_resp,
  c_wait_ctr, a_wait_dcs, a_recv_tcf, a_send_dis, Config, Retries,
}
use nospandsp_fax.T30.Control.{
  finish, send_simple, v34_refresh_bit_rate, tx_v21_frames, rx_v21, send_ctrl_burst,
}
use nospandsp_fax.T30.Status.{on_status, step_complete, await}
use nospandsp_fax.T30.Engine.{on_timer, expired, resend_post}
use nospandsp_fax.T30.EcmSend.{ecm_send_pps, ecm_send_ctc}
use nospandsp_fax.T30.Expiry.{
  tries_at, hung_up, unarmed, again_post, again_ctc, again_dis, expired_last, expired_post,
  expired_pps, expired_ctc, expired_dis, Repeats, post, pps, ctc, dis, repeats_lem,
}
use nospandsp_fax.T30.Calling.{answer_send_dis}

-- The timer runs out, and the backend then reports that what was sent is out.
unfoldable pub lull : Outside → T30 → T30
unfolding on_timer on_status
lull o s = on_status o (on_timer o s s.timeout) send_step_complete

unfoldable pub silence : Outside → ℕ → T30 → T30
unfolding lull
silence o zero s = s
silence o (suc n) s = silence o n (lull o s)

-- How often the station may repeat what it waits with.
abbrev pub tries_left : T30 → ℕ
tries_left s = tries_at s.substate s

-- The call goes on and its timer runs, but not for a training check.
pub record Waiting (s : T30) : Type 0 where
  pub going : s.finished ≡ false
  pub armed : 0 < s.timeout
  pub no_training : s.substate ≢ a_recv_tcf

-- The timer is out.
timed_out :
    (o : Outside) (s : T30)
    → 0 < s.timeout
    → on_timer o s s.timeout ≡ expired o s.substate (record s { timeout = 0 })
unfolding on_timer
timed_out o s armed =
    let chosen : Bool → Bool → ℕ → T30 = λ a b k.
      if a
      then s
      else if b
      then expired o s.substate (record s { timeout = k })
      else record s { timeout = k } in
    let running : (s.timeout == 0) ≡ false = ground arith in
    let out : leb s.timeout s.timeout ≡ true = ground arith in
    ap (λ (a : Bool). chosen a (leb s.timeout s.timeout) (s.timeout - s.timeout)) running
    ∙ (ap (λ (b : Bool). chosen false b (s.timeout - s.timeout)) out
        ∙ ap (λ (k : ℕ). chosen false true k) (omega arith))

given_up :
    (o : Outside) (s : T30)
    → s.finished ≡ false
    → ((finish o s err_timeout).substate ≡ st_done)
      × ((finish o s err_timeout).result ≡ err_timeout)
unfolding finish v34_refresh_bit_rate
given_up o s going = ground (arith, going)

lull_lem :
    (o : Outside) (s t : T30) (u : Substate)
    → s.substate ≡ u
    → 0 < s.timeout
    → expired o u (record s { timeout = 0 }) ≡ t
    → lull o s ≡ step_complete o t.substate t
unfolding lull on_status
lull_lem o s t u at armed after =
    ap (λ (v : T30). step_complete o v.substate v)
      (timed_out o s armed
        ∙ (ap (λ (w : Substate). expired o w (record s { timeout = 0 })) at ∙ after))

-- The call has ended for want of an answer.
abbrev pub TimedOut : T30 → Type 0
TimedOut s = (s.substate ≡ st_done) × (s.result ≡ err_timeout)

lull_end :
    (o : Outside) (s : T30) (u : Substate)
    → s.substate ≡ u
    → 0 < s.timeout
    → s.finished ≡ false
    → expired o u (record s { timeout = 0 }) ≡ hung_up o s
    → TimedOut (lull o s)
unfolding step_complete
lull_end o s u at armed going after =
    let (ended, why) = given_up o (send_simple (record s { timeout = 0 }) Fcf.dcn) going in
    let same : lull o s ≡ hung_up o s =
      lull_lem o s (hung_up o s) u at armed after
      ∙ ap (λ (v : Substate). step_complete o v (hung_up o s)) ended in
    subst TimedOut (sym same) (ended, why)

no_more : (m r : ℕ) → m - r ≡ 0 → ltb r m ≡ false
no_more m r none_left = ground arith

one_more : (k m r : ℕ) → m - r ≡ suc k → ltb r m ≡ true
one_more k m r some_left = ground arith

answer_send_dis_lem :
    (o : Outside) (s : T30)
    → ((answer_send_dis o s).substate ≡ a_send_dis)
      × ((answer_send_dis o s).finished ≡ s.finished)
      × ((answer_send_dis o s).tries ≡ s.tries)
      × ((answer_send_dis o s).config ≡ s.config)
unfolding answer_send_dis send_ctrl_burst tx_v21_frames
answer_send_dis_lem o s =
    if_both
      (λ (t : T30).
        (t.substate ≡ a_send_dis)
        × (t.finished ≡ s.finished)
        × (t.tries ≡ s.tries)
        × (t.config ≡ s.config))
      (ltb 0 (length s.config.ident) && not s.v34) (refl, refl, refl, refl) (refl, refl, refl, refl)

module _ (o : Outside) (s : T30) (h : Waiting s) where
  -- Without another try, a lull ends the call.
  lull_last : tries_left s ≡ 0 → TimedOut (lull o s)
  lull_last none_left =
      lull_end o s s.substate refl (h.armed) (h.going)
        (expired_last o s.substate s (h.no_training) none_left)

  -- A lull leads to `t`, which waits again with `k` more tries.
  abbrev Again : ℕ → T30 → Type 0
  Again k t = Waiting t × (tries_left t ≡ k)

  -- With another try, a lull leads to the same wait with one try less.
  lull_more : (k : ℕ) → tries_left s ≡ suc k → Again k (lull o s)
  unfolding step_complete await rx_v21 resend_post tx_v21_frames ecm_send_pps ecm_send_ctc
  lull_more k some_left = by_wait (repeats_lem k s.substate s some_left)
    where
      by_wait : Repeats s s.substate k → Again k (lull o s)
      by_wait (post at e) =
          subst (Again k)
            (sym (
              lull_lem o s (resend_post (unarmed s)) c_wait_mcf at (h.armed)
                (expired_post o s true (one_more k 3 s.tries.post_retries e))))
            (record { going = h.going; armed = omega arith; no_training = cc }, omega arith)
      by_wait (pps at e) =
          subst (Again k)
            (sym (
              lull_lem o s (ecm_send_pps (again_post s)) c_wait_pps_resp at (h.armed)
                (expired_pps o s true (one_more k 3 s.tries.post_retries e))))
            (record { going = h.going; armed = omega arith; no_training = cc }, omega arith)
      by_wait (ctc at e) =
          subst (Again k)
            (sym (
              lull_lem o s (ecm_send_ctc (again_ctc s)) c_wait_ctr at (h.armed)
                (expired_ctc o s true (one_more k 3 s.tries.ctc_retries e))))
            (record { going = h.going; armed = omega arith; no_training = cc }, omega arith)
      by_wait (dis at calls e) =
          let t = answer_send_dis o (again_dis s) in
          let (sent, going, tries, config) = answer_send_dis_lem o (again_dis s) in
          let calls' : t.config.poll_receive ≡ false =
            ap (λ (c : Config). c.poll_receive) config ∙ calls in
          let counted : t.tries.dis_retries ≡ s.tries.dis_retries + 1 =
            ap (λ (r : Retries). r.dis_retries) tries in
          subst (Again k)
            (sym (
              lull_lem o s t a_wait_dcs at (h.armed)
                (expired_dis o s true calls (one_more k 10 s.tries.dis_retries e))
              ∙ ap (λ (u : Substate). step_complete o u t) sent))
            (
              record { going = going ∙ h.going; armed = omega arith; no_training = cc },
              rw (calls', counted) (omega arith),
            )

silence_lem :
    (o : Outside) (k : ℕ) (s : T30) → Waiting s → tries_left s ≡ k → TimedOut (silence o (suc k) s)
unfolding silence
silence_lem o zero s h e = lull_last o s h e
silence_lem o (suc k) s h e = let (h', e') = lull_more o s h k e in silence_lem o k (lull o s) h' e'

-- On a silent line a station whose timer runs, in a training check aside, gives up and ends the
-- call as timed out after one lull for each try that it has left and one more: it has up to three
-- tries for the answer to a page or a block or to a change of rate, up to ten for the answer to a
-- DIS if it does not poll, and none in all other waits.
pub silence-TimedOut :
    (o : Outside) (s : T30) → Waiting s → TimedOut (silence o (suc (tries_left s)) s)
silence-TimedOut o s h = silence_lem o (tries_left s) s h refl
