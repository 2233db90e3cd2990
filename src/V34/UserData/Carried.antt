-- ===== src/V34/UserData/Carried.antt =====
-- HDLC frames of nf_hdlc.c go over the control channel of nf_v34.c.
use nospandsp_fax.Common.{ℕ, ◌+◌, ◌/◌, ◌%◌, ◌≤◌, ◌<◌, ◌≡◌, refl, sym, ap, ◌∙◌, arith, All}
use nospandsp_fax.Common.{
  Bool, true, some, List, [], ◌∷◌, ◌++◌, length, IsByte, data_bits, All-append, append-nil,
  Bool-cases, ◌==◌, inl, inr,
}
use nospandsp_fax.Hdlc.Crc.{fcs}
use nospandsp_fax.Hdlc.Rx.{HdlcRx, Event, frame, put_bit, put_bits}
use nospandsp_fax.Hdlc.Stuffing.{stuffed}
use nospandsp_fax.Hdlc.Frames.{
  flag_bits, Ready, put_bits-append, put_bits-stuffed, data_bits-All-IsBit,
}
use nospandsp_fax.V34.Scrambler.{scramble_bit, descramble_bit}
use nospandsp_fax.V34.Scrambler.Sync.{Agree, bit_back, step-InStep}
use nospandsp_fax.V34.Channel.{cc_point, CcTx, cc_tx_dibit, cc_tx_dibits, cc_tx_bits, mp_quadrant}
use nospandsp_fax.V34.Channel.RoundTrip.{turn_back, delta, mix-lt}
use nospandsp_fax.V34.UserData.{
  CcData, take_turn, turn_from, watch_alt, ccdata_feed_symbol, ccdata_feed_symbols,
}

-- The receiver stands on the sender's last point, and its descrambler is in step.
pub record Linked (s : CcTx) (d : CcData) : Type 0 where
  pub point : s.zn < 4
  pub at_point : d.prev_quad ≡ some (mp_quadrant (cc_point s.zn))
  pub in_step : Agree 23 s.scr d.descr

-- The receiver `d'` and the events are those of the bits, taken in by the HDLC receiver of `d`.
pub record Took (d d' : CcData) (bits : List ℕ) (events : List Event) : Type 0 where
  pub hdlc_is : d'.hdlc ≡ (put_bits d.hdlc bits).0
  pub events_are : events ≡ (put_bits d.hdlc bits).1

dibit-Took :
    (s : CcTx) (d : CcData) (a b : ℕ)
    → Linked s d
    → a < 2
    → b < 2
    → Linked (cc_tx_dibit s a b).0 (ccdata_feed_symbol d (cc_tx_dibit s a b).1).0
      × Took d
          (ccdata_feed_symbol d (cc_tx_dibit s a b).1).0
          (a ∷ b ∷ [])
          (ccdata_feed_symbol d (cc_tx_dibit s a b).1).1
unfolding ccdata_feed_symbol cc_tx_dibit take_turn turn_from watch_alt put_bits
dibit-Took s d a b h la lb =
    let ea : a % 2 ≡ a = omega arith in
    let eb : b % 2 ≡ b = omega arith in
    let scr1 = (scramble_bit s.scr a).0 in
    let i1 = (scramble_bit s.scr a).1 in
    let i2 = (scramble_bit scr1 b).1 in
    let l1 : i1 < 2 = unfold scramble_bit in mix-lt s.scr a in
    let l2 : i2 < 2 = unfold scramble_bit in mix-lt (scramble_bit s.scr a).0 b in
    let back = turn_back s.zn i1 i2 h.point l1 l2 in
    let e1 : delta s.zn i1 i2 h.point l1 l2 % 2 ≡ i1 = omega (arith, back, l1) in
    let e2 : delta s.zn i1 i2 h.point l1 l2 / 2 % 2 ≡ i2 = omega (arith, back, l1, l2) in
    let descr1 = (descramble_bit d.descr i1).0 in
    let step1 : Agree 23 scr1 descr1 = step-InStep s.scr d.descr a h.in_step in
    let b0 : (descramble_bit d.descr i1).1 ≡ a = bit_back s.scr d.descr a h.in_step ∙ ea in
    let b1 : (descramble_bit descr1 i2).1 ≡ b = bit_back scr1 descr1 b step1 ∙ eb in
    (
      rw (ea, eb, h.at_point, e1, e2)
          (record {
            point = omega arith;
            at_point = refl;
            in_step = step-InStep scr1 descr1 b step1;
          }),
      rw (ea, eb, h.at_point, e1, e2, b0, b1)
          (record {
            hdlc_is = refl;
            events_are =
                ap (λ (events : List Event). (put_bit d.hdlc a).1 ++ events)
                  (sym (append-nil (put_bit (put_bit d.hdlc a).0 b).1));
          }),
    )

-- Runs follow each other.
Took-append :
    (d d1 d2 : CcData) (xs ys : List ℕ) (events more : List Event)
    → Took d d1 xs events
    → Took d1 d2 ys more
    → Took d d2 (xs ++ ys) (events ++ more)
Took-append d d1 d2 xs ys events more h k =
    let both = put_bits-append xs ys d.hdlc in
    let e : (put_bits d1.hdlc ys) ≡ put_bits (put_bits d.hdlc xs).0 ys =
      ap (λ (t : HdlcRx). put_bits t ys) h.hdlc_is in
    record {
      hdlc_is =
          k.hdlc_is
          ∙ ap (λ (p : HdlcRx × List Event). p.0) e
          ∙ sym (ap (λ (p : HdlcRx × List Event). p.0) both);
      events_are = rw both (cc (h.events_are, k.events_are, e));
    }

-- Bits that fill whole symbols arrive.
pub dibits-Took :
    (s : CcTx) (d : CcData) (bits : List ℕ)
    → Linked s d
    → All (λ b. b < 2) bits
    → length bits % 2 ≡ 0
    → Linked (cc_tx_dibits s bits).0 (ccdata_feed_symbols d (cc_tx_dibits s bits).1).0
      × Took d
          (ccdata_feed_symbols d (cc_tx_dibits s bits).1).0
          bits
          (ccdata_feed_symbols d (cc_tx_dibits s bits).1).1
unfolding cc_tx_dibits ccdata_feed_symbols
dibits-Took s d [] h bits even =
    (h, unfold put_bits in record { hdlc_is = refl; events_are = refl })
dibits-Took s d (a ∷ []) h bits even = absurd (omega arith)
dibits-Took s d (a ∷ b ∷ rest) h (la, (lb, bits)) even =
    let (h1, took) = dibit-Took s d a b h la lb in
    let (h2, more) =
      dibits-Took (cc_tx_dibit s a b).0 (ccdata_feed_symbol d (cc_tx_dibit s a b).1).0 rest h1 bits
        (omega arith) in
    (h2, Took-append d _ _ (a ∷ b ∷ []) rest _ _ took more)

stuffed-All :
    (ones : ℕ) (bits : List ℕ) → All (λ b. b < 2) bits → All (λ b. b < 2) (stuffed ones bits)
unfolding stuffed
stuffed-All ones [] h = tt
stuffed-All ones (b ∷ bs) (lt, h) =
    let zero_next = stuffed-All 0 bs h in
    let one_next = stuffed-All (ones + 1) bs h in
    elim (Bool-cases (b == 0)) [
      | inl z ↦ rw z (lt, zero_next)
      | inr o ↦ elim (Bool-cases (ones + 1 == 5)) [
        | inl five ↦ rw (o, five) (lt, (omega arith, zero_next))
        | inr few ↦ rw (o, few) (lt, one_next)
      ]
    ]

-- What the line carries for a payload behind a flag.
abbrev pub on_line : List ℕ → List ℕ
on_line payload = stuffed 0 (data_bits (payload ++ fcs payload)) ++ flag_bits

-- A payload of at most 400 octets, stuffed and closed by a flag, with bits behind it that fill the
-- last symbol, is sent over the control channel at 1200 bit/s; a receiver that has the last point
-- of the sender, whose descrambler agrees with the scrambler on the last 23 bits, and whose HDLC
-- receiver is between frames, hands up that payload with a good verdict, then what comes of the
-- bits behind from between frames again, and stays linked to the sender.
pub ccdata_feed_symbols-cc_tx_bits :
    (s : CcTx) (d : CcData) (payload behind : List ℕ)
    → Linked s d
    → Ready d.hdlc
    → length payload ≤ 400
    → All IsByte payload
    → All (λ b. b < 2) behind
    → length (on_line payload ++ behind) % 2 ≡ 0
    → (s' : CcTx) × (zs : List (Bool × Bool)) × (r : HdlcRx) × (cc_tx_bits s
          (on_line payload ++ behind)
        ≡ some (s', zs))
      × Ready r
      × ((ccdata_feed_symbols d zs).1 ≡ frame payload true ∷ (put_bits r behind).1)
      × Linked s' (ccdata_feed_symbols d zs).0
      × ((ccdata_feed_symbols d zs).0.hdlc ≡ (put_bits r behind).0)
unfolding cc_tx_bits
ccdata_feed_symbols-cc_tx_bits s d payload behind h ready short bytes bits even =
    let line = on_line payload ++ behind in
    let (r, came, again) = put_bits-stuffed d.hdlc payload ready bytes short in
    let stuffed_bits =
      stuffed-All 0 (data_bits (payload ++ fcs payload))
        (data_bits-All-IsBit (payload ++ fcs payload)) in
    let framed : All (λ b. b < 2) (on_line payload) =
      All-append (λ b. b < 2) _ flag_bits stuffed_bits (omega arith) in
    let all_bits : All (λ b. b < 2) line =
      All-append (λ b. b < 2) (on_line payload) behind framed bits in
    let (h', took) = dibits-Took s d line h all_bits even in
    let all : put_bits d.hdlc line
        ≡ ((put_bits r behind).0, frame payload true ∷ (put_bits r behind).1) =
      put_bits-append (on_line payload) behind d.hdlc ∙ rw came refl in
    (
      (cc_tx_dibits s line).0,
      (cc_tx_dibits s line).1,
      r,
      rw even refl,
      again,
      took.events_are ∙ ap (λ (p : HdlcRx × List Event). p.1) all,
      h',
      took.hdlc_is ∙ ap (λ (p : HdlcRx × List Event). p.0) all,
    )
