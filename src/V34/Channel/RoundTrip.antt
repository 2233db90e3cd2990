-- ===== src/V34/Channel/RoundTrip.antt =====
-- An MP frame of nf_v34.c goes over the control channel.
use nospandsp_fax.Common.{
  ℕ, zero, suc, ◌+◌, ◌-◌, ◌*◌, ◌/◌, ◌%◌, ◌<◌, ◌≡◌, refl, ap, ◌∙◌, arith, All,
}
use nospandsp_fax.Common.{Bool, Option, none, some, List, [], ◌∷◌, length}
use nospandsp_fax.V34.Scrambler.{Scrambler, scramble, scramble_bit, mix}
use nospandsp_fax.V34.Scrambler.Sync.{Agree}
use nospandsp_fax.V34.Mp.{MpRx, Taps, frame_type, MphFields, mp_feed, mph_build}
use nospandsp_fax.V34.Mp.RoundTrip.{received, mp_feed-mph_build, are_bits}
use nospandsp_fax.V34.Channel.{
  cc_point, CcTx, cc_tx_dibit, cc_tx_dibits, cc_tx_bits, cc_tx_mph, mp_quadrant, MpDemod, feed_turn,
  feed_after, mp_feed_symbol, mp_feed_symbols,
}

quadrant-cc_point : (zn : ℕ) → zn < 4 → mp_quadrant (cc_point zn) ≡ (4 - zn) % 4
unfolding mp_quadrant cc_point
quadrant-cc_point zero h = refl
quadrant-cc_point (suc zero) h = refl
quadrant-cc_point (suc (suc zero)) h = refl
quadrant-cc_point (suc (suc (suc zero))) h = refl
quadrant-cc_point (suc (suc (suc (suc n)))) h = absurd (omega arith)

-- The turn between two points gives back the two bits.
module _ (zn i1 i2 : ℕ) (h : zn < 4) (h1 : i1 < 2) (h2 : i2 < 2) where
  abbrev pub next : ℕ
  next = (zn + i1 + 2 * i2) % 4

  abbrev pub delta : ℕ
  delta = (mp_quadrant (cc_point zn) + 4 - mp_quadrant (cc_point next)) % 4

  pub turn_back : delta ≡ i1 + 2 * i2
  turn_back = omega (arith, quadrant-cc_point zn h, quadrant-cc_point next (omega arith))

pub mix-lt : (s : Scrambler) (b : ℕ) → mix s b < 2
unfolding mix
mix-lt s b = omega arith

-- The demodulator stands on the point that the sender has left.
abbrev pub Following : CcTx → MpDemod → Type 0
Following s d = (s.zn < 4) × (d.prev_quad ≡ some (mp_quadrant (cc_point s.zn)))

dibit_back :
    (s : CcTx) (d : MpDemod) (a b : ℕ)
    → Following s d
    → a < 2
    → b < 2
    → ((mp_feed_symbol d (cc_tx_dibit s a b).1).rx ≡ mp_feed d.rx (scramble s.scr (a ∷ b ∷ [])))
      × Following (cc_tx_dibit s a b).0 (mp_feed_symbol d (cc_tx_dibit s a b).1)
unfolding mp_feed_symbol cc_tx_dibit mp_feed scramble feed_turn feed_after
dibit_back s d a b (lt, at) ha hb =
    let ea : a % 2 ≡ a = omega arith in
    let eb : b % 2 ≡ b = omega arith in
    let scr1 = (scramble_bit s.scr a).0 in
    let i1 = (scramble_bit s.scr a).1 in
    let i2 = (scramble_bit scr1 b).1 in
    let l1 : i1 < 2 = unfold scramble_bit in mix-lt s.scr a in
    let l2 : i2 < 2 = unfold scramble_bit in mix-lt (scramble_bit s.scr a).0 b in
    let back = turn_back s.zn i1 i2 lt l1 l2 in
    let e1 : delta s.zn i1 i2 lt l1 l2 % 2 ≡ i1 = omega (arith, back, l1) in
    let e2 : delta s.zn i1 i2 lt l1 l2 / 2 % 2 ≡ i2 = omega (arith, back, l1, l2) in
    (rw (ea, eb, at, e1, e2) refl, (omega arith, refl))

scr_after :
    (s : CcTx) (a b : ℕ)
    → a < 2
    → b < 2
    → (cc_tx_dibit s a b).0.scr ≡ (scramble_bit (scramble_bit s.scr a).0 b).0
unfolding cc_tx_dibit
scr_after s a b ha hb =
    let ea : a % 2 ≡ a = omega arith in let eb : b % 2 ≡ b = omega arith in rw (ea, eb) refl

-- The descrambler and the sync see the scrambled bits as they were.
dibits_back :
    (s : CcTx) (d : MpDemod) (bits : List ℕ)
    → Following s d
    → All (λ b. b < 2) bits
    → length bits % 2 ≡ 0
    → (mp_feed_symbols d (cc_tx_dibits s bits).1).rx ≡ mp_feed d.rx (scramble s.scr bits)
unfolding mp_feed_symbols cc_tx_dibits mp_feed scramble
dibits_back s d [] h bits even = refl
dibits_back s d (a ∷ []) h bits even = absurd (omega arith)
dibits_back s d (a ∷ b ∷ rest) h (la, (lb, bits)) even =
    let (e, h') = dibit_back s d a b h la lb in
    let s1 = (cc_tx_dibit s a b).0 in
    let d1 = mp_feed_symbol d (cc_tx_dibit s a b).1 in
    dibits_back s1 d1 rest h' bits (omega arith)
    ∙ ap (λ (x : MpRx). mp_feed x (scramble s1.scr rest)) e
    ∙ ap (λ (x : Scrambler). mp_feed (mp_feed d.rx (scramble s.scr (a ∷ b ∷ []))) (scramble x rest))
        (scr_after s a b la lb)

even_mph :
    (f : MphFields) (o : Option Taps) → length (mph_build (record f { tap_fields = o })) % 2 ≡ 0
unfolding mph_build frame_type
even_mph f none = omega arith
even_mph f (some t) = omega arith

-- A frame that goes over the control channel at 1200 bit/s is sent, and a receiver that has the
-- last point of the sender, looks for the sync and has a descrambler that agrees with the
-- scrambler on the last 23 bits, then has the fields that were sent, and the taps if any.
pub mp_feed_symbols-cc_tx_mph :
    (s : CcTx) (d : MpDemod) (f : MphFields)
    → Following s d
    → Agree 23 s.scr d.rx.descr
    → d.rx.heard.buf ≡ none
    → (s' : CcTx) × (zs : List (Bool × Bool)) × (cc_tx_mph s f ≡ some (s', zs))
      × ((mp_feed_symbols d zs).rx.heard ≡ received f d.rx.heard)
unfolding cc_tx_mph cc_tx_bits
mp_feed_symbols-cc_tx_mph s d f h agree searching =
    let even = even_mph f f.tap_fields in
    let sent = cc_tx_dibits s (mph_build f) in
    (
      sent.0,
      sent.1,
      rw even refl,
      ap (λ (x : MpRx). x.heard) (dibits_back s d (mph_build f) h (are_bits f f.tap_fields) even)
          ∙ mp_feed-mph_build d.rx s.scr f agree searching,
    )
