-- ===== src/Udptl/Order.antt =====
-- `nf_udptl_rx` on any datagram, forged ones included: what it delivers is in order, new and
-- bounded, and the loop over groups of secondaries ends.
use nospandsp_fax.Common.{ℕ, zero, suc, ◌+◌, ◌-◌, ◌%◌, ◌≤◌, ◌<◌, ◌≡◌, refl, arith}
use nospandsp_fax.Common.{Bool, true, some, List, [], ◌∷◌, ◌++◌, length, All}
use nospandsp_fax.Common.{IsByte, Option-cases, inl, inr, Bool-cases, get_or, ltb, leb, ◌&&◌}
use nospandsp_fax.Common.{>>=-eq-some, length-drop}
use Prim.Native.Nat.{min}
use nospandsp_fax.Udptl.Types.{Udptl}
use nospandsp_fax.Udptl.Recover.{accept-started}
use nospandsp_fax.Udptl.Decode.{Delivery, Datagram, parse, accept, rx, fill_gap, ahead}
use nospandsp_fax.Udptl.Decode.{dec_length, dec_open_type, dec_objects, dec_groups}

-- The calls of the handler lie strictly in order within the window from `expected + lo` up to,
-- and not including, `expected + hi`.
abbrev pub InWindow : ℕ → ℕ → ℕ → List Delivery → Type 0
InWindow expected lo hi [] = lo ≤ hi
InWindow expected lo hi (d ∷ ds) =
    (lo ≤ ahead d.seq expected) × InWindow expected (suc (ahead d.seq expected)) hi ds

InWindow-widen :
    (expected lo lo' hi : ℕ) (ds : List Delivery)
    → lo' ≤ lo
    → InWindow expected lo hi ds
    → InWindow expected lo' hi ds
InWindow-widen expected lo lo' hi [] h w = omega arith
InWindow-widen expected lo lo' hi (d ∷ ds) h (a, w) = (omega arith, w)

fill_gap-InWindow :
    (number expected fwd g : ℕ) (primary : List ℕ) (secs : List (List ℕ))
    → number < 65536
    → expected < 65536
    → ahead number expected ≡ fwd
    → fwd < 0x8000
    → g ≤ fwd
    → InWindow expected
        (fwd - g)
        (fwd + 1)
        (fill_gap number secs g ++ (record { ifp = primary; seq = number } ∷ []))
unfolding fill_gap
fill_gap-InWindow number expected fwd zero primary secs hn he e near below =
    (omega arith, omega arith)
fill_gap-InWindow number expected fwd (suc i) primary secs hn he e near below =
    let here : ahead ((number + 65536 - suc i) % 65536) expected ≡ fwd - suc i = omega arith in
    let rest = fill_gap-InWindow number expected fwd i primary secs hn he e near (omega arith) in
    elim (Bool-cases (ltb i (length secs) && ltb 0 (length (get_or secs i [])))) [
      | inl taken ↦
          rw taken (omega arith, rw here (InWindow-widen expected _ _ _ _ (omega arith) rest))
      | inr skipped ↦ rw skipped (InWindow-widen expected _ _ _ _ (omega arith) rest)
    ]

parse-number-lt :
    (buf : List ℕ) (d : Datagram) → All IsByte buf → parse buf ≡ some d → d.number < 65536
unfolding parse
parse-number-lt [] d h e = cc
parse-number-lt (hi ∷ []) d h e = cc
parse-number-lt (hi ∷ lo ∷ r) d (a, (b, h)) e = ground arith

accept-InWindow :
    (r r' : Udptl) (d : Datagram) (ds : List Delivery)
    → r.rx_started ≡ true
    → r.rx_seq_no < 65536
    → d.number < 65536
    → accept r d ≡ (r', ds)
    → (w : ℕ) × (w ≤ 0x8000)
      × (r'.rx_seq_no ≡ (r.rx_seq_no + w) % 65536)
      × InWindow r.rx_seq_no 0 w ds
accept-InWindow r r' d ds started he hn e =
    elim (Bool-cases (leb 0x8000 (ahead d.number r.rx_seq_no))) [
      | inl old ↦
          unfold accept in
          (0, omega arith, ground (arith, started, old), ground (arith, started, old))
      | inr new ↦
          let fwd = ahead d.number r.rx_seq_no in
          let near : fwd < 0x8000 = ground arith in
          let same = accept-started r d fwd started refl near in
          (fwd + 1, omega arith, ground (arith, same, e), moved fwd refl near (cc (same, e)))
    ]
  where
    moved :
        (fwd : ℕ)
        → ahead d.number r.rx_seq_no ≡ fwd
        → fwd < 0x8000
        → ds
          ≡ fill_gap d.number d.secs (min fwd (length d.secs))
            ++ (record { ifp = d.primary; seq = d.number } ∷ [])
        → InWindow r.rx_seq_no 0 (fwd + 1) ds
    moved fwd at near same = rw same (
        InWindow-widen r.rx_seq_no _ _ _ _ (omega arith) (
          fill_gap-InWindow d.number r.rx_seq_no fwd (min fwd (length d.secs)) d.primary d.secs hn
            he at near (omega arith)))

-- Whatever octets arrive at a receiver that has its baseline: the handler is called for packets
-- strictly in order, none of them behind the one expected, and all within half the number space;
-- afterwards the expected number has moved past the last of them and by no more than that half.
pub rx-InWindow :
    (r r' : Udptl) (buf : List ℕ) (ds : List Delivery)
    → r.rx_started ≡ true
    → r.rx_seq_no < 65536
    → All IsByte buf
    → rx r buf ≡ some (r', ds)
    → (w : ℕ) × (w ≤ 0x8000)
      × (r'.rx_seq_no ≡ (r.rx_seq_no + w) % 65536)
      × InWindow r.rx_seq_no 0 w ds
rx-InWindow r r' buf ds started he octets e =
    let (d, parsed, done) =
      >>=-eq-some (parse buf) (λ d. some (accept r d)) {b = (r', ds)} (unfold rx in e) in
    accept-InWindow r r' d ds started he (parse-number-lt buf d octets parsed) (cc done)

-- A datagram from the backward half of the number space (a duplicate, a late or a forged one)
-- changes nothing and delivers nothing.
pub rx_old :
    (r : Udptl) (buf : List ℕ) (d : Datagram)
    → r.rx_started ≡ true
    → parse buf ≡ some d
    → 0x8000 ≤ ahead d.number r.rx_seq_no
    → rx r buf ≡ some (r, [])
unfolding rx
rx_old r buf d started parsed old = rw parsed (ground (arith, started))

dec_length-shorter :
    (buf r : List ℕ) (fragment : Bool) (v : ℕ)
    → dec_length buf ≡ some (fragment, v, r)
    → length r < length buf
unfolding dec_length
dec_length-shorter [] r fragment v e = cc
dec_length-shorter (b ∷ []) r fragment v e = ground arith
dec_length-shorter (b ∷ c ∷ t) r fragment v e = ground arith

dec_open_type-shorter :
    (buf object r : List ℕ) → dec_open_type buf ≡ some (object, r) → length r < length buf
unfolding dec_open_type
dec_open_type-shorter buf object r e = elim (Option-cases (dec_length buf)) [
  | inl bad ↦ absurd (ground (arith, bad))
  | inr ((f, v, t), read) ↦ ground (arith, read, dec_length-shorter buf t f v read, length-drop v t)
]

dec_objects-shorter :
    (count : ℕ) (buf r : List ℕ) (objects : List (List ℕ))
    → dec_objects count buf ≡ some (objects, r)
    → (length r ≤ length buf) × (length objects ≡ count)
unfolding dec_objects
dec_objects-shorter zero buf r objects e = ground arith
dec_objects-shorter (suc count) buf r objects e = elim (Option-cases (dec_open_type buf)) [
  | inl bad ↦ absurd (ground (arith, bad))
  | inr ((o, t), read) ↦ elim (Option-cases (dec_objects count t)) [
    | inl bad ↦ absurd (ground (arith, read, bad))
    | inr ((os, u), more) ↦ ground (
      arith,
      read,
      more,
      dec_open_type-shorter buf o t read,
      dec_objects-shorter count t u os more,
    )
  ]
]

-- The loop over groups ends: once there is more fuel than octets, more fuel changes nothing.
pub dec_groups_fuel :
    (f g : ℕ) (secs : List (List ℕ)) (buf : List ℕ)
    → length buf < f
    → length buf < g
    → dec_groups f secs buf ≡ dec_groups g secs buf
unfolding dec_groups
dec_groups_fuel zero g secs buf a b = absurd (omega arith)
dec_groups_fuel (suc f) zero secs buf a b = absurd (omega arith)
dec_groups_fuel (suc f) (suc g) secs buf a b = elim (Option-cases (dec_length buf)) [
  | inl bad ↦ rw bad
  | inr ((fragment, count, t), read) ↦ elim (Option-cases (dec_objects count t)) [
    | inl bad ↦ rw (read, bad)
    | inr ((os, u), more) ↦
        rw (read, more)
          (ground (
            arith,
            dec_groups_fuel f g (secs ++ os) u
                (omega (
                  arith,
                  dec_length-shorter buf t fragment count read,
                  dec_objects-shorter count t u os more,
                ))
                (omega (
                  arith,
                  dec_length-shorter buf t fragment count read,
                  dec_objects-shorter count t u os more,
                )),
          ))
  ]
]
