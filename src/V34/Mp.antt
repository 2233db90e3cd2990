-- ===== src/V34/Mp.antt =====
-- The MP frames on the control channel of V.34 in nf_v34.c: the receiver `v34_mp_feed_bit` and
-- `v34_mph_build_bits`. The buffer of the receiver is the list of the bits that it has filled,
-- `none` while it looks for the sync. A precoder tap is the 16-bit pattern of its number.
use nospandsp_fax.Common.{ℕ, zero, suc, ◌+◌, Bool, true, false, ◌&&◌, leb, ◌==◌, if◌then◌else◌}
use nospandsp_fax.Common.{Option, none, some, List, [], ◌∷◌, ◌++◌, length, take, drop, get_or}
use nospandsp_fax.Common.{replicate}
use nospandsp_fax.V34.Frames.{field, read, crc_bits}
use nospandsp_fax.V34.Scrambler.{Scrambler, scrambler_init, descramble_bit}
pub mod Collect
pub mod RoundTrip

-- The fields of a frame in `nf_v34_mp_rx_t`.
pub record MpFields : Type 0 where
  pub type : ℕ
  pub max_rate_c2a : ℕ
  pub max_rate_a2c : ℕ
  pub cc_rate : ℕ
  pub aux_channel : ℕ
  pub trellis_size : ℕ
  pub nonlinear : ℕ
  pub shaping : ℕ
  pub ack : ℕ
  pub rate_mask : ℕ
  pub asym_enable : ℕ

-- The precoder taps h(1) to h(3).
pub record Taps : Type 0 where
  pub h_re0 : ℕ
  pub h_im0 : ℕ
  pub h_re1 : ℕ
  pub h_im1 : ℕ
  pub h_re2 : ℕ
  pub h_im2 : ℕ

-- What `nf_v34_mp_rx_t` keeps of the descrambled bits.
pub record Heard : Type 0 where
  pub ones_run : ℕ
  pub buf : Option (List ℕ)
  pub have_frame : Bool
  pub fields : MpFields
  pub taps : Taps

-- `nf_v34_mp_rx_t` behind the decision of quadrants.
pub record MpRx : Type 0 where
  pub descr : Scrambler
  pub heard : Heard

unfoldable pub mp_rx_init : Bool → MpRx
unfolding scrambler_init
mp_rx_init is_call_modem = record {
  descr = scrambler_init is_call_modem;
  heard = record {
    ones_run = 0;
    buf = none;
    have_frame = false;
    fields = record {
      type = 0;
      max_rate_c2a = 0;
      max_rate_a2c = 0;
      cc_rate = 0;
      aux_channel = 0;
      trellis_size = 0;
      nonlinear = 0;
      shaping = 0;
      ack = 0;
      rate_mask = 0;
      asym_enable = 0;
    };
    taps = record { h_re0 = 0; h_im0 = 0; h_re1 = 0; h_im1 = 0; h_re2 = 0; h_im2 = 0 };
  };
}

-- `v34_mp_parse_common`
unfoldable pub mp_fields : List ℕ → MpFields
unfolding read
mp_fields b = record {
  type = get_or b 0 0;
  max_rate_c2a = read 4 b 2;
  max_rate_a2c = read 4 b 6;
  cc_rate = get_or b 9 0;
  aux_channel = get_or b 10 0;
  trellis_size = read 2 b 11;
  nonlinear = get_or b 13 0;
  shaping = get_or b 14 0;
  ack = get_or b 15 0;
  rate_mask = read 15 b 17;
  asym_enable = get_or b 32 0;
}

unfoldable pub mp_taps : List ℕ → Taps
unfolding read
mp_taps b = record {
  h_re0 = read 16 b 34;
  h_im0 = read 16 b 51;
  h_re1 = read 16 b 68;
  h_im1 = read 16 b 85;
  h_re2 = read 16 b 102;
  h_im2 = read 16 b 119;
}

-- The bits of the data groups, `left` of them, each behind a start bit but the first.
unfoldable pub data_groups : ℕ → List ℕ → List ℕ
data_groups zero b = []
data_groups (suc left) b = take 16 b ++ data_groups left (drop 17 b)

-- The start bits behind the data groups are 0.
unfoldable pub starts_ok : ℕ → List ℕ → Bool
starts_ok zero b = true
starts_ok (suc left) b = (get_or b 16 0 == 0) && starts_ok left (drop 17 b)

unfoldable pub type0_ok : List ℕ → Bool
unfolding read data_groups starts_ok
type0_ok b = starts_ok 3 b && (read 16 b 51 == crc_bits (data_groups 3 b))

unfoldable pub type1_ok : List ℕ → Bool
unfolding read data_groups starts_ok
type1_ok b =
    (get_or b 0 0 == 1)
    && starts_ok 9 b
    && (get_or b 169 0 == 0)
    && (read 16 b 153 == crc_bits (data_groups 9 b))

-- Back to the search for the sync.
unfoldable pub hunt : Heard → Heard
hunt h = record h { buf = none; ones_run = 0 }

-- A bit of a frame: `b` are the bits so far with this one.
unfoldable pub collect : Heard → List ℕ → Heard
collect h b =
    if (length b == 70) && (get_or b 0 0 == 0)
    then hunt (if type0_ok b then record h { fields = mp_fields b; have_frame = true } else h)
    else if leb 170 (length b)
    then hunt (
        if type1_ok b
        then record h { fields = mp_fields b; taps = mp_taps b; have_frame = true }
        else h)
    else record h { buf = some b }

-- A bit while the receiver looks for 17 ones and a zero.
unfoldable pub search_sync : Heard → ℕ → Heard
search_sync h b =
    if b == 0
    then record h { buf = if leb 17 h.ones_run then some [] else none; ones_run = 0 }
    else record h { ones_run = h.ones_run + 1 }

unfoldable pub listen_in : Option (List ℕ) → Heard → ℕ → Heard
listen_in none h b = search_sync h b
listen_in (some buf) h b = collect h (buf ++ (b ∷ []))

-- The descrambled bit.
unfoldable pub listen : Heard → ℕ → Heard
listen h b = listen_in h.buf (record h { have_frame = false }) b

-- `v34_mp_feed_bit`
unfoldable pub mp_feed_bit : MpRx → ℕ → MpRx
mp_feed_bit s raw =
    let (d, b) = descramble_bit s.descr raw in record { descr = d; heard = listen s.heard b }

-- The bits in order.
unfoldable pub mp_feed : MpRx → List ℕ → MpRx
mp_feed s [] = s
mp_feed s (b ∷ bs) = mp_feed (mp_feed_bit s b) bs

-- `nf_v34_mph_fields_t`, of which only a frame of type 1 has the taps.
pub record MphFields : Type 0 where
  pub max_rate : ℕ
  pub cc_rate : ℕ
  pub trellis_size : ℕ
  pub nonlinear : ℕ
  pub shaping : ℕ
  pub ack : ℕ
  pub rate_mask : ℕ
  pub asym_enable : ℕ
  pub tap_fields : Option Taps

-- The first two data groups: bits 18 to 33 and 35 to 50.
unfoldable pub first_group : ℕ → MphFields → List ℕ
unfolding field
first_group type f =
    field 1 type
    ++ (0
        ∷ (field 4 f.max_rate
            ++ (0
                ∷ 0
                ∷ 0
                ∷ (field 1 f.cc_rate
                    ++ (0
                        ∷ (field 2 f.trellis_size
                            ++ (field 1 f.nonlinear ++ (field 1 f.shaping ++ field 1 f.ack))))))))

unfoldable pub second_group : MphFields → List ℕ
unfolding field
second_group f = field 15 f.rate_mask ++ field 1 f.asym_enable

unfoldable pub tap_groups : Option Taps → List (List ℕ)
unfolding field
tap_groups none = field 16 0 ∷ []
tap_groups (some t) =
    field 16 t.h_re0
    ∷ field 16 t.h_im0
    ∷ field 16 t.h_re1
    ∷ field 16 t.h_im1
    ∷ field 16 t.h_re2
    ∷ field 16 t.h_im2
    ∷ field 16 0
    ∷ []

-- Each group with the start bit behind it.
unfoldable pub with_starts : List (List ℕ) → List ℕ → List ℕ
with_starts [] rest = rest
with_starts (g ∷ gs) rest = g ++ (0 ∷ with_starts gs rest)

unfoldable pub all_bits : List (List ℕ) → List ℕ
all_bits [] = []
all_bits (g ∷ gs) = g ++ all_bits gs

unfoldable pub frame_type : Option Taps → ℕ
frame_type none = 0
frame_type (some t) = 1

-- What is filled up behind the check sequence.
unfoldable pub fill : Option Taps → List ℕ
fill none = 0 ∷ 0 ∷ 0 ∷ []
fill (some t) = 0 ∷ []

-- The frame behind the sync.
unfoldable pub mph_frame : MphFields → List ℕ
unfolding first_group second_group tap_groups with_starts all_bits fill field
mph_frame f =
    let groups =
      first_group (frame_type f.tap_fields) f ∷ second_group f ∷ tap_groups f.tap_fields in
    with_starts groups (field 16 (crc_bits (all_bits groups)) ++ fill f.tap_fields)

-- `v34_mph_build_bits`
unfoldable pub mph_build : MphFields → List ℕ
unfolding mph_frame
mph_build f = replicate 17 1 ++ (0 ∷ mph_frame f)
