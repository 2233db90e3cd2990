-- ===== src/V34/Mp/RoundTrip.antt =====
-- An MP frame of nf_v34.c reaches the receiver as it was sent.
use nospandsp_fax.Common.{ℕ, ◌*◌, ◌%◌, ◌^◌, ◌<◌, ◌≡◌, refl, ap, ◌∙◌, arith, inl, inr}
use nospandsp_fax.Common.{true, ◌==◌, All}
use nospandsp_fax.Common.{Option, none, some, List, ◌∷◌, length, drop, get_or}
use nospandsp_fax.V34.Frames.{field, read, crc_bits, crc_bits-lt}
use nospandsp_fax.V34.Scrambler.{Scrambler, scramble}
use nospandsp_fax.V34.Scrambler.Sync.{Agree}
use nospandsp_fax.V34.Mp.{
  MpFields, Taps, Heard, MpRx, MphFields, hunt, collect, type0_ok, type1_ok, mp_fields, mp_taps,
  mp_feed, mph_frame, mph_build, all_bits, first_group, second_group, tap_groups, frame_type,
}
use nospandsp_fax.V34.Mp.Collect.{
  listen_all, mp_feed-scramble, started, listen_all-sync, listen_all-frame,
}

-- The fields as the receiver sees them: those of the duplex view come from the same bits.
unfoldable pub sent : MphFields → MpFields
sent f = record {
  type = frame_type f.tap_fields;
  max_rate_c2a = f.max_rate % 16;
  max_rate_a2c = 8 * (f.cc_rate % 2);
  cc_rate = f.cc_rate % 2;
  aux_channel = 0;
  trellis_size = f.trellis_size % 4;
  nonlinear = f.nonlinear % 2;
  shaping = f.shaping % 2;
  ack = f.ack % 2;
  rate_mask = f.rate_mask % 2 ^ 15;
  asym_enable = f.asym_enable % 2;
}

-- The taps of a frame of type 1 replace those known; a frame of type 0 leaves them.
unfoldable pub sent_taps : Option Taps → Taps → Taps
sent_taps none known = known
sent_taps (some t) known = record {
  h_re0 = t.h_re0 % 2 ^ 16;
  h_im0 = t.h_im0 % 2 ^ 16;
  h_re1 = t.h_re1 % 2 ^ 16;
  h_im1 = t.h_im1 % 2 ^ 16;
  h_re2 = t.h_re2 % 2 ^ 16;
  h_im2 = t.h_im2 % 2 ^ 16;
}

-- A frame without or with taps.
abbrev with_taps : MphFields → Option Taps → MphFields
with_taps f o = record f { tap_fields = o }

rebuilt : (c : ℕ) → c < 2 ^ 16 → (read 16 (field 16 c) 0 == c) ≡ true
unfolding read field
rebuilt c lt = ground arith

type0_accepted : (f : MphFields) → type0_ok (mph_frame (with_taps f none)) ≡ true
unfolding type0_ok mph_frame frame_type
type0_accepted f =
    let groups = first_group 0 f ∷ second_group f ∷ tap_groups none in
    rebuilt (crc_bits (all_bits groups)) (crc_bits-lt (all_bits groups))

type1_accepted : (f : MphFields) (t : Taps) → type1_ok (mph_frame (with_taps f (some t))) ≡ true
unfolding type1_ok mph_frame frame_type
type1_accepted f t =
    let groups = first_group 1 f ∷ second_group f ∷ tap_groups (some t) in
    rebuilt (crc_bits (all_bits groups)) (crc_bits-lt (all_bits groups))

mp_fields-type0 :
    (f : MphFields) → mp_fields (mph_frame (with_taps f none)) ≡ sent (with_taps f none)
unfolding mp_fields mph_frame frame_type sent
mp_fields-type0 f = ground arith

mp_fields-type1 :
    (f : MphFields) (t : Taps)
    → mp_fields (mph_frame (with_taps f (some t))) ≡ sent (with_taps f (some t))
unfolding mp_fields mph_frame frame_type sent
mp_fields-type1 f t = ground arith

mp_taps-type1 :
    (f : MphFields) (t known : Taps)
    → mp_taps (mph_frame (with_taps f (some t))) ≡ sent_taps (some t) known
unfolding mp_taps mph_frame frame_type sent_taps
mp_taps-type1 f t known = ground arith

-- The last bit of a frame whose checks hold.
collect_type0 :
    (h : Heard) (b : List ℕ)
    → length b ≡ 70
    → get_or b 0 0 ≡ 0
    → type0_ok b ≡ true
    → collect h b ≡ hunt (record h { fields = mp_fields b; have_frame = true })
unfolding collect
collect_type0 h b size first good = ground arith

collect_type1 :
    (h : Heard) (b : List ℕ)
    → length b ≡ 170
    → type1_ok b ≡ true
    → collect h b ≡ hunt (record h { fields = mp_fields b; taps = mp_taps b; have_frame = true })
unfolding collect
collect_type1 h b size good = ground arith

are_bits0 : (f : MphFields) → All (λ b. b < 2) (mph_build (with_taps f none))
unfolding mph_build frame_type
are_bits0 f = omega arith

are_bits1 : (f : MphFields) (t : Taps) → All (λ b. b < 2) (mph_build (with_taps f (some t)))
unfolding mph_build frame_type
are_bits1 f t = omega arith

-- What the receiver has after a good frame.
abbrev pub received : MphFields → Heard → Heard
received f h = record {
  ones_run = 0;
  buf = none;
  have_frame = true;
  fields = sent f;
  taps = sent_taps f.tap_fields h.taps;
}

heard_frame :
    (f : MphFields) (o : Option Taps) (h : Heard)
    → listen_all (started h) (mph_frame (with_taps f o)) ≡ received (with_taps f o) h
unfolding mph_frame frame_type hunt sent_taps
heard_frame f none h =
    let b = mph_frame (with_taps f none) in
    listen_all-frame h 0 (drop 1 b) (inl (refl, omega arith)) (omega arith)
    ∙ collect_type0 (started h) b (omega arith) refl (type0_accepted f)
    ∙ ap (λ (g : MpFields). hunt (record (started h) { fields = g; have_frame = true }))
        (mp_fields-type0 f)
heard_frame f (some t) h =
    let b = mph_frame (with_taps f (some t)) in
    listen_all-frame h 1 (drop 1 b) (inr (refl, omega arith)) (omega arith)
    ∙ collect_type1 (started h) b (omega arith) (type1_accepted f t)
    ∙ ap
        (λ (g : MpFields).
          hunt (record (started h) { fields = g; taps = mp_taps b; have_frame = true }))
        (mp_fields-type1 f t)
    ∙ ap
        (λ (x : Taps). hunt (record (started h) {
          fields = sent (with_taps f (some t));
          taps = x;
          have_frame = true;
        }))
        (mp_taps-type1 f t h.taps)

pub are_bits : (f : MphFields) (o : Option Taps) → All (λ b. b < 2) (mph_build (with_taps f o))
are_bits f none = are_bits0 f
are_bits f (some t) = are_bits1 f t

-- A receiver that looks for the sync, and whose descrambler agrees with the scrambler on the last
-- 23 bits, has after a scrambled frame of either type the fields that were sent, and the taps if
-- there are any, and looks for the next frame.
pub mp_feed-mph_build :
    (s : MpRx) (scr : Scrambler) (f : MphFields)
    → Agree 23 scr s.descr
    → s.heard.buf ≡ none
    → (mp_feed s (scramble scr (mph_build f))).heard ≡ received f s.heard
unfolding mph_build
mp_feed-mph_build s scr f h searching =
    mp_feed-scramble s scr (mph_build f) h (are_bits f f.tap_fields)
    ∙ listen_all-sync 17 s.heard (mph_frame f) searching (omega arith)
    ∙ heard_frame f f.tap_fields s.heard
