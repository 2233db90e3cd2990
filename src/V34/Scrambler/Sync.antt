-- ===== src/V34/Scrambler/Sync.antt =====
-- How the descrambler of nf_v34.c falls into step with the scrambler.
use nospandsp_fax.Common.{ℕ, zero, suc, ◌+◌, ◌-◌, ◌*◌, ◌%◌, ◌≤◌, ◌≡◌, refl, sym, ◌∙◌}
use nospandsp_fax.Common.{List, [], ◌∷◌, map, drop, length, arith}
use nospandsp_fax.Common.{bit_xor, bit_xor-mod_two, length-set}
use nospandsp_fax.Common.{get_or-set_self, get_or-set_ne, ◌≢◌}
use nospandsp_fax.V34.Scrambler.{
  Scrambler, hist_get, store, mix, scramble_bit, descramble_bit, scramble, descramble,
}

-- Two scramblers with the same taps that agree on the last `k` bits.
pub record Agree (k : ℕ) (s d : Scrambler) : Type 0 where
  pub same_a : s.tap_a ≡ d.tap_a
  pub same_b : s.tap_b ≡ d.tap_b
  pub tap_a_pos : 1 ≤ s.tap_a
  pub tap_a_le : s.tap_a ≤ 23
  pub tap_b_pos : 1 ≤ s.tap_b
  pub tap_b_le : s.tap_b ≤ 23
  pub size : length s.hist ≡ 32
  pub size' : length d.hist ≡ 32
  pub past : (delay : ℕ) → 1 ≤ delay → delay ≤ k → hist_get s delay ≡ hist_get d delay

hist_get-store : (s : Scrambler) (v : ℕ) → length s.hist ≡ 32 → hist_get (store s v) 1 ≡ v
unfolding hist_get store
hist_get-store s v h =
    let i : (s.pos + 1 + 32 * 4 - 1) % 32 ≡ s.pos % 32 = omega arith in
    rw i (get_or-set_self s.hist (s.pos % 32) v 0 (omega arith))

hist_get-store-suc :
    (s : Scrambler) (v delay : ℕ)
    → 1 ≤ delay
    → delay ≤ 23
    → hist_get (store s v) (suc delay) ≡ hist_get s delay
unfolding hist_get store
hist_get-store-suc s v delay pos le =
    let i : (s.pos + 1 + 32 * 4 - suc delay) % 32 ≡ (s.pos + 32 * 4 - delay) % 32 = omega arith in
    let other : s.pos % 32 ≢ (s.pos + 32 * 4 - delay) % 32 = λ e. omega arith in
    rw i (get_or-set_ne s.hist (s.pos % 32) ((s.pos + 32 * 4 - delay) % 32) v 0 other)

-- A bit stored on both sides is one more that agrees.
store-Agree :
    (k : ℕ) (s d : Scrambler) (v : ℕ) → k ≤ 23 → Agree k s d → Agree (suc k) (store s v) (store d v)
unfolding store
store-Agree k s d v le h = record {
  same_a = h.same_a;
  same_b = h.same_b;
  tap_a_pos = h.tap_a_pos;
  tap_a_le = h.tap_a_le;
  tap_b_pos = h.tap_b_pos;
  tap_b_le = h.tap_b_le;
  size = length-set s.hist (s.pos % 32) v ∙ h.size;
  size' = length-set d.hist (d.pos % 32) v ∙ h.size';
  past = past_after;
}
  where
    past_after :
        (delay : ℕ)
        → 1 ≤ delay
        → delay ≤ suc k
        → hist_get (store s v) delay ≡ hist_get (store d v) delay
    past_after zero p q = absurd (omega arith)
    past_after (suc zero) p q = hist_get-store s v (h.size) ∙ sym (hist_get-store d v (h.size'))
    past_after (suc (suc i)) p q =
        hist_get-store-suc s v (suc i) (omega arith) (omega arith)
        ∙ h.past (suc i) (omega arith) (omega arith)
        ∙ sym (hist_get-store-suc d v (suc i) (omega arith) (omega arith))

-- What is mixed twice with the same delayed bits comes back.
mix-mix : (s d : Scrambler) (b : ℕ) → Agree 23 s d → mix d (mix s b) ≡ b % 2
unfolding mix hist_get
mix-mix s d b h =
    let a = h.past s.tap_a (h.tap_a_pos) (h.tap_a_le) in
    let c = h.past s.tap_b (h.tap_b_pos) (h.tap_b_le) in
    let x : ℕ = hist_get s s.tap_a in
    let y : ℕ = hist_get s s.tap_b in
    let v : ℕ = bit_xor (bit_xor b x) y % 2 in
    rw (← h.same_a, ← h.same_b, ← a, ← c)
      (omega (
        arith,
        bit_xor-mod_two (bit_xor b x) y,
        bit_xor-mod_two b x,
        bit_xor-mod_two (bit_xor v x) y,
        bit_xor-mod_two v x,
      ))

mix-lt : (s : Scrambler) (b : ℕ) → mix s b % 2 ≡ mix s b
unfolding mix
mix-lt s b = omega arith

Agree-le : (k : ℕ) (s d : Scrambler) → Agree (suc k) s d → Agree k s d
Agree-le k s d h = record {
  same_a = h.same_a;
  same_b = h.same_b;
  tap_a_pos = h.tap_a_pos;
  tap_a_le = h.tap_a_le;
  tap_b_pos = h.tap_b_pos;
  tap_b_le = h.tap_b_le;
  size = h.size;
  size' = h.size';
  past = λ delay p q. h.past delay p (omega arith);
}

-- A bit on its way: the descrambler agrees on one bit more.
pub step-Agree :
    (k : ℕ) (s d : Scrambler) (b : ℕ)
    → k ≤ 23
    → Agree k s d
    → Agree (suc k) (scramble_bit s b).0 (descramble_bit d (scramble_bit s b).1).0
unfolding scramble_bit descramble_bit
step-Agree k s d b le h = rw (mix-lt s b) (store-Agree k s d (mix s b) le h)

-- In step, every bit comes back.
pub bit_back :
    (s d : Scrambler) (b : ℕ) → Agree 23 s d → (descramble_bit d (scramble_bit s b).1).1 ≡ b % 2
unfolding scramble_bit descramble_bit
bit_back s d b h = mix-mix s d b h

pub step-InStep :
    (s d : Scrambler) (b : ℕ)
    → Agree 23 s d
    → Agree 23 (scramble_bit s b).0 (descramble_bit d (scramble_bit s b).1).0
step-InStep s d b h =
    Agree-le 23 (scramble_bit s b).0 (descramble_bit d (scramble_bit s b).1).0
      (step-Agree 23 s d b (omega arith) h)

pub descramble-scramble_all :
    (s d : Scrambler) (bs : List ℕ)
    → Agree 23 s d
    → descramble d (scramble s bs) ≡ map (λ b. b % 2) bs
unfolding scramble descramble
descramble-scramble_all s d [] h = refl
descramble-scramble_all s d (b ∷ bs) h = cc (
  bit_back s d b h,
  descramble-scramble_all (scramble_bit s b).0 (descramble_bit d (scramble_bit s b).1).0 bs
      (step-InStep s d b h),
)

getting_in_step :
    (left k : ℕ) (s d : Scrambler) (bs : List ℕ)
    → left + k ≡ 23
    → Agree k s d
    → drop left (descramble d (scramble s bs)) ≡ drop left (map (λ b. b % 2) bs)
unfolding scramble descramble
getting_in_step zero k s d bs e h =
    let e' : k ≡ 23 = omega arith in descramble-scramble_all s d bs (rw (← e') h)
getting_in_step (suc left) k s d [] e h = refl
getting_in_step (suc left) k s d (b ∷ bs) e h =
    getting_in_step left (suc k) (scramble_bit s b).0 (descramble_bit d (scramble_bit s b).1).0 bs
      (omega arith) (step-Agree k s d b (omega arith) h)

-- A descrambler that agrees with the scrambler on the last k of 23 bits gives back all bits but
-- the first 23 - k, whatever the rest of its history.
pub descramble-scramble :
    (k : ℕ) (s d : Scrambler) (bs : List ℕ)
    → k ≤ 23
    → Agree k s d
    → drop (23 - k) (descramble d (scramble s bs)) ≡ drop (23 - k) (map (λ b. b % 2) bs)
descramble-scramble k s d bs le h = getting_in_step (23 - k) k s d bs (omega arith) h
