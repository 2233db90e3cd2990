-- ===== src/T30/Expiry.antt =====
-- What nf_t30.c does when the time of a wait is out.
use nospandsp_fax.Common.{ℕ, suc, ◌+◌, ◌-◌, ◌≡◌, ◌≢◌, refl, ap, ◌∙◌, arith}
use nospandsp_fax.Common.{Bool, false, Bool-cases, inl, inr, ltb, not, ◌&&◌, if◌then◌else◌}
use nospandsp_fax.T30.Fcf
use nospandsp_fax.T30.State.{
  T30, Outside, Substate, err_timeout, c_wait_mcf, c_wait_pps_resp, c_wait_ctr, a_wait_dcs,
  a_recv_tcf,
}
use nospandsp_fax.T30.Control.{finish, send_simple}
use nospandsp_fax.T30.Engine.{expired, resend_post}
use nospandsp_fax.T30.EcmSend.{ecm_send_pps, ecm_send_ctc}
use nospandsp_fax.T30.Calling.{answer_send_dis}

-- How often a wait may still be repeated: a command after a page or a block and a change of rate
-- three times in all, a DIS ten times, but not by a station that polls; no other wait.
abbrev pub tries_at : Substate → T30 → ℕ
tries_at c_wait_mcf s = 3 - s.tries.post_retries
tries_at c_wait_pps_resp s = 3 - s.tries.post_retries
tries_at c_wait_ctr s = 3 - s.tries.ctc_retries
tries_at a_wait_dcs s = if s.config.poll_receive then 0 else 10 - s.tries.dis_retries
tries_at _ s = 0

abbrev pub hung_up : Outside → T30 → T30
hung_up o s = finish o (send_simple (record s { timeout = 0 }) Fcf.dcn) err_timeout

abbrev pub unarmed : T30 → T30
unarmed s = record s { timeout = 0 }

-- Without another try the call ends, but in a training check.
pub expired_last :
    (o : Outside) (u : Substate) (s : T30)
    → u ≢ a_recv_tcf
    → tries_at u s ≡ 0
    → expired o u (unarmed s) ≡ hung_up o s
unfolding expired
expired_last o u s other none_left = ground arith

-- The waits with another try.
pub data Repeats (s : T30) (u : Substate) (k : ℕ) : Type 0 where
  post : u ≡ c_wait_mcf → 3 - s.tries.post_retries ≡ suc k → Repeats s u k
  pps : u ≡ c_wait_pps_resp → 3 - s.tries.post_retries ≡ suc k → Repeats s u k
  ctc : u ≡ c_wait_ctr → 3 - s.tries.ctc_retries ≡ suc k → Repeats s u k
  dis :
      u ≡ a_wait_dcs
      → s.config.poll_receive ≡ false
      → 10 - s.tries.dis_retries ≡ suc k
      → Repeats s u k

pub repeats_lem : (k : ℕ) (u : Substate) (s : T30) → tries_at u s ≡ suc k → Repeats s u k
repeats_lem k c_wait_mcf s e = post refl e
repeats_lem k c_wait_pps_resp s e = pps refl e
repeats_lem k c_wait_ctr s e = ctc refl e
repeats_lem k a_wait_dcs s e = elim (Bool-cases (s.config.poll_receive)) [
  | inl polls ↦ absurd (ground (arith, polls))
  | inr calls ↦ dis refl calls (ground (arith, calls))
]
repeats_lem k u s e = absurd (omega arith)

abbrev pub again_post : T30 → T30
again_post s = record s {
  timeout = 0;
  tries = record (s.tries) { post_retries = s.tries.post_retries + 1 };
}

abbrev pub again_ctc : T30 → T30
again_ctc s = record s {
  timeout = 0;
  tries = record (s.tries) { ctc_retries = s.tries.ctc_retries + 1 };
}

abbrev pub again_dis : T30 → T30
again_dis s = record s {
  timeout = 0;
  tries = record (s.tries) { dis_retries = s.tries.dis_retries + 1 };
}

-- What a wait with several tries does when its time is out.
module _ (o : Outside) (s : T30) where
  pub expired_post :
      (b : Bool)
      → ltb s.tries.post_retries 3 ≡ b
      → expired o c_wait_mcf (unarmed s) ≡ (if b then resend_post (unarmed s) else hung_up o s)
  unfolding expired
  expired_post b few = ap (λ (t : Bool). if t then resend_post (unarmed s) else hung_up o s) few

  pub expired_pps :
      (b : Bool)
      → ltb s.tries.post_retries 3 ≡ b
      → expired o c_wait_pps_resp (unarmed s)
        ≡ (if b then ecm_send_pps (again_post s) else hung_up o s)
  unfolding expired
  expired_pps b few = ap (λ (t : Bool). if t then ecm_send_pps (again_post s) else hung_up o s) few

  pub expired_ctc :
      (b : Bool)
      → ltb s.tries.ctc_retries 3 ≡ b
      → expired o c_wait_ctr (unarmed s) ≡ (if b then ecm_send_ctc (again_ctc s) else hung_up o s)
  unfolding expired
  expired_ctc b few = ap (λ (t : Bool). if t then ecm_send_ctc (again_ctc s) else hung_up o s) few

  pub expired_dis :
      (b : Bool)
      → s.config.poll_receive ≡ false
      → ltb s.tries.dis_retries 10 ≡ b
      → expired o a_wait_dcs (unarmed s)
        ≡ (if b then answer_send_dis o (again_dis s) else hung_up o s)
  unfolding expired
  expired_dis b calls few =
      ap
        (λ (p : Bool).
          if not p && ltb s.tries.dis_retries 10
          then answer_send_dis o (again_dis s)
          else hung_up o s)
        calls
      ∙ ap (λ (t : Bool). if t then answer_send_dis o (again_dis s) else hung_up o s) few
