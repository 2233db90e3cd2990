-- ===== src/V34/Session/Agreement.antt =====
-- Two sessions of nf_v34.c that hear each other agree on the rates.
use nospandsp_fax.Common.{
  ℕ, zero, suc, ◌-◌, ◌*◌, ◌/◌, ◌%◌, ◌^◌, ◌≤◌, ◌<◌, ◌≡◌, refl, sym, ap, ◌∙◌, arith,
}
use nospandsp_fax.Common.{Bool, true, not, ◌&&◌, ◌||◌, ltb, leb, ◌==◌, bit, bit_and, if◌then◌else◌}
use nospandsp_fax.Common.{all_below, all_below_sound, from_zero}
use native.Mathlib.Nat.{mul_comm}
use nospandsp_fax.V34.RateTables.{
  ratetabs, rates_2400, rates_2743, rates_2800, rates_3000, rates_3200, rates_3429,
}
use nospandsp_fax.V34.Rates.{rate_mask, mask_rows, ratetab}
use nospandsp_fax.V34.Mp.RoundTrip.{sent}
use nospandsp_fax.V34.Session.{
  highest, lowest, top_rate, floor_rate, set_max_rate, Session, picked, pick_cc_rate, sess_mph,
  hear_mph,
}

-- The mask that a session with the cap `c` sends.
abbrev mask_sent : ℕ → ℕ → ℕ
mask_sent sr c = bit_and (rate_mask (from_zero sr)) (2 ^ c - 1) % 2 ^ 15

abbrev rate_after : ℕ → ℕ → ℕ → ℕ
rate_after sr a b = picked sr (a * 2400) (b % 16 * 2400) (mask_sent sr b)

-- The rate is offered, no cap is below it, and no rate offered lies between it and both caps.
abbrev best : ℕ → ℕ → ℕ → ℕ → Bool
best sr a b rate =
    (bit (rate_mask (from_zero sr)) (rate / 2400 - 1) == 1)
    && (ltb 0 rate && (leb rate (a * 2400) && leb rate (b * 2400)))
    && all_below 14 (λ i.
      not (bit (rate_mask (from_zero sr)) i == 1)
      || (leb (suc i * 2400) rate || (ltb a (suc i) || ltb b (suc i))))

abbrev agreed : ℕ → ℕ → ℕ → Bool
agreed sr a b =
    ltb (a * 2400) (floor_rate sr)
    || ltb (b * 2400) (floor_rate sr)
    || ((rate_after sr a b == rate_after sr b a) && best sr a b (rate_after sr a b))

all_agreed : all_below 6 (λ sr. all_below 15 (λ a. all_below 15 (λ b. agreed sr a b))) ≡ true
unfolding all_below picked floor_rate rate_mask mask_rows ratetab ratetabs rates_2400 rates_2743
    rates_2800 rates_3000 rates_3200 rates_3429 highest lowest
all_agreed = refl

agreed_lem : (sr a b : ℕ) → sr < 6 → a < 15 → b < 15 → agreed sr a b ≡ true
agreed_lem sr a b hs ha hb =
    all_below_sound 15 (λ b. agreed sr a b) b
      (all_below_sound 15 (λ a. all_below 15 (λ b. agreed sr a b)) a
        (all_below_sound 6 (λ sr. all_below 15 (λ a. all_below 15 (λ b. agreed sr a b))) sr
          all_agreed hs)
        ha)
      hb

-- A session whose own limit is a rate between the lowest of its symbol rate and 33600 bit/s.
pub record IsLimited (s : Session) : Type 0 where
  pub known : s.srate_idx < 6
  pub whole : s.local_max_rate % 2400 ≡ 0
  pub at_least : floor_rate s.srate_idx ≤ s.local_max_rate
  pub at_most : s.local_max_rate ≤ 33600
  pub flag : s.cc_rate_adv < 2

-- Two sessions after they have heard each other, from before.
pub record Agreed (a b a' b' : Session) : Type 0 where
  pub same_rate : a'.rate_cur ≡ b'.rate_cur
  pub offered : bit (rate_mask (from_zero a.srate_idx)) (a'.rate_cur / 2400 - 1) ≡ 1
  pub positive : 0 < a'.rate_cur
  pub within_a : a'.rate_cur ≤ a.local_max_rate
  pub within_b : a'.rate_cur ≤ b.local_max_rate
  pub highest_rate :
      (i : ℕ)
      → i < 14
      → bit (rate_mask (from_zero a.srate_idx)) i ≡ 1
      → suc i * 2400 ≤ a.local_max_rate
      → suc i * 2400 ≤ b.local_max_rate
      → suc i * 2400 ≤ a'.rate_cur
  pub same_cc : a'.cc_rate ≡ b'.cc_rate
  pub both_cc : a'.cc_rate ≡ a.cc_rate_adv * b.cc_rate_adv

rate_heard :
    (a b : Session)
    → IsLimited a
    → a.srate_idx ≡ b.srate_idx
    → (hear_mph a (sent (sess_mph b))).rate_cur
      ≡ rate_after a.srate_idx (a.local_max_rate / 2400) (b.local_max_rate / 2400)
unfolding hear_mph sent sess_mph
rate_heard a b h same =
    let e : a.local_max_rate ≡ a.local_max_rate / 2400 * 2400 = omega (arith, h.whole) in
    rw (← same) (
      ap
        (λ (t : ℕ).
          picked a.srate_idx t (b.local_max_rate / 2400 % 16 * 2400)
            (mask_sent a.srate_idx (b.local_max_rate / 2400)))
        e)

module _ (sr ca cb : ℕ) (ok : agreed sr ca cb ≡ true) (fa : floor_rate sr ≤ ca * 2400)
    (fb : floor_rate sr ≤ cb * 2400) where
  symmetric : rate_after sr ca cb ≡ rate_after sr cb ca
  symmetric = ground arith

  is_best : best sr ca cb (rate_after sr ca cb) ≡ true
  is_best = ground arith

-- The parts of `best`.
module _ (sr ca cb r : ℕ) (ok : best sr ca cb r ≡ true) where
  is_offered : bit (rate_mask (from_zero sr)) (r / 2400 - 1) ≡ 1
  is_offered = ground arith

  in_caps : (0 < r) × (r ≤ ca * 2400) × (r ≤ cb * 2400)
  in_caps = ground arith

  abbrev no_better : ℕ → Bool
  no_better i =
      not (bit (rate_mask (from_zero sr)) i == 1)
      || (leb (suc i * 2400) r || (ltb ca (suc i) || ltb cb (suc i)))

  none_better : all_below 14 no_better ≡ true
  none_better = ground arith

  is_highest :
      (i : ℕ)
      → i < 14
      → bit (rate_mask (from_zero sr)) i ≡ 1
      → suc i ≤ ca
      → suc i ≤ cb
      → suc i * 2400 ≤ r
  is_highest i lt on la lb =
      let h : no_better i ≡ true = all_below_sound 14 no_better i none_better lt in ground arith

cc_heard :
    (a b : Session)
    → IsLimited a
    → IsLimited b
    → (hear_mph a (sent (sess_mph b))).cc_rate ≡ a.cc_rate_adv * b.cc_rate_adv
unfolding hear_mph sent sess_mph pick_cc_rate
cc_heard a b h k = flags a.cc_rate_adv b.cc_rate_adv (h.flag) (k.flag)
  where
    flags : (x y : ℕ) → x < 2 → y < 2 → (if not (x == 0) && not (y % 2 == 0) then 1 else 0) ≡ x * y
    flags zero y p q = omega arith
    flags (suc zero) zero p q = refl
    flags (suc zero) (suc zero) p q = refl
    flags (suc zero) (suc (suc y)) p q = absurd (omega arith)
    flags (suc (suc x)) y p q = absurd (omega arith)

-- Two sessions at the same symbol rate, whose own limits are rates from the lowest of the symbol
-- rate to 33600 bit/s, take the same rates once each has heard the other's MPh: for the primary
-- channel the highest that is offered and that neither limit excludes, for the control channel
-- 2400 bit/s exactly if both advertise it.
pub hear_mph-Agreed :
    (a b : Session)
    → a.srate_idx ≡ b.srate_idx
    → IsLimited a
    → IsLimited b
    → Agreed a b (hear_mph a (sent (sess_mph b))) (hear_mph b (sent (sess_mph a)))
hear_mph-Agreed a b same h k =
    let sr = a.srate_idx in
    let ca = a.local_max_rate / 2400 in
    let cb = b.local_max_rate / 2400 in
    let ea : ca * 2400 ≡ a.local_max_rate = omega (arith, h.whole) in
    let eb : cb * 2400 ≡ b.local_max_rate = omega (arith, k.whole) in
    let fb : floor_rate sr ≤ b.local_max_rate = rw same (k.at_least) in
    let ok = agreed_lem sr ca cb (h.known) (omega (arith, h.at_most)) (omega (arith, k.at_most)) in
    let fa' : floor_rate sr ≤ ca * 2400 = omega (arith, h.at_least) in
    let fb' : floor_rate sr ≤ cb * 2400 = omega arith in
    let r = rate_after sr ca cb in
    let good = is_best sr ca cb ok fa' fb' in
    let e = rate_heard a b h same in
    let e' : (hear_mph b (sent (sess_mph a))).rate_cur ≡ rate_after sr cb ca =
      rate_heard b a k (sym same) ∙ ap (λ (t : ℕ). rate_after t cb ca) (sym same) in
    let (pos, la, lb) = in_caps sr ca cb r good in
    record {
      same_rate = e ∙ symmetric sr ca cb ok fa' fb' ∙ sym e';
      offered = rw e (is_offered sr ca cb r good);
      positive = omega arith;
      within_a = omega arith;
      within_b = omega arith;
      highest_rate = λ i lt on ua ub.
          omega
            (arith, e, is_highest sr ca cb r good i lt on (omega (arith, ea)) (omega (arith, eb)));
      same_cc =
          omega (arith, cc_heard a b h k, cc_heard b a k h, mul_comm a.cc_rate_adv b.cc_rate_adv);
      both_cc = cc_heard a b h k;
    }

abbrev range_ok : ℕ → Bool
range_ok sr =
    (top_rate sr % 2400 == 0)
    && (floor_rate sr % 2400 == 0)
    && leb (floor_rate sr) (top_rate sr)
    && leb (top_rate sr) 33600

ranges_ok : all_below 6 range_ok ≡ true
unfolding all_below top_rate floor_rate rate_mask mask_rows ratetab ratetabs rates_2400 rates_2743
    rates_2800 rates_3000 rates_3200 rates_3429
ranges_ok = refl

-- A limit set by the application, of whatever value, is brought into the range of a session.
pub set_max_rate-IsLimited :
    (s : Session) (rate : ℕ) → s.srate_idx < 6 → s.cc_rate_adv < 2 → IsLimited (set_max_rate s rate)
unfolding set_max_rate
set_max_rate-IsLimited s rate known flag =
    let ok = all_below_sound 6 range_ok s.srate_idx ranges_ok known in
    record {
      known = known;
      whole = ground arith;
      at_least = ground arith;
      at_most = ground arith;
      flag = flag;
    }
