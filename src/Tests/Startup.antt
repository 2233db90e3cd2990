-- ===== src/Tests/Startup.antt =====
-- The parts of nf_v34.c at concrete inputs.
use nospandsp_fax.Common.{ℕ, ◌%◌, ◌^◌, ◌<◌, ◌≡◌, refl, arith, Bool, true, false, some}
use nospandsp_fax.Common.{List, [], ◌∷◌, ◌++◌, map, drop, from_zero}
use nospandsp_fax.V34.Shell.{Rings, shell_map, shell_unmap}
use nospandsp_fax.V34.Shell.RoundTrip.{AreRings}
use nospandsp_fax.V34.Shell.Bijection.{shell_unmap-shell_map, shell_map-shell_unmap}
use nospandsp_fax.V34.Scrambler.{Scrambler, scrambler_init, scramble, descramble}
use nospandsp_fax.V34.Scrambler.Sync.{Agree, descramble-scramble}
use nospandsp_fax.V34.RateTables.{srates, ratetabs, rates_3429}
use nospandsp_fax.V34.Rates.{
  PcParams, params, pcparams_init, rateparam, ratetab, rate_mask, mask_rows, find_rate, frame_bits,
}
use nospandsp_fax.V34.Rates.Modes.{IsMode, pcparams_init-IsMode}
use nospandsp_fax.V34.Info.{InfoFrame, infoh, info_build, info_parse}
use nospandsp_fax.V34.Info.RoundTrip.{is_infoh, sent, info_parse-info_build}
use nospandsp_fax.V34.Mp.{MphFields, mp_rx_init}
use nospandsp_fax.V34.Mp.RoundTrip.{received, sent as mph_sent}
use nospandsp_fax.V34.Channel.{
  CcTx, MpDemod, cc_tx_bits, cc_tx_mph, mp_feed_symbols, mp_quadrant, cc_point,
}
use nospandsp_fax.V34.Channel.RoundTrip.{mp_feed_symbols-cc_tx_mph}
use nospandsp_fax.Hdlc.Crc.{fcs, crc16, crc_step}
use nospandsp_fax.Hdlc.Rx.{HdlcRx, frame, put_bits}
use nospandsp_fax.Hdlc.Stuffing.{stuffed}
use nospandsp_fax.Hdlc.Frames.{Ready}
use nospandsp_fax.V34.UserData.{CcData, ccdata_feed_symbols}
use nospandsp_fax.V34.UserData.Carried.{Linked, on_line, ccdata_feed_symbols-cc_tx_bits}
use nospandsp_fax.Tests.Framing.{dcn, synchronised, synchronised-Ready}
use nospandsp_fax.V34.Session.{Session, hear_mph, sess_mph, floor_rate}
use nospandsp_fax.V34.Session.Agreement.{IsLimited, Agreed, hear_mph-Agreed}

shell_unmap-shell_map_example :
    (shell_unmap 3 (shell_map 3 200) ≡ 200) × AreRings 3 (shell_map 3 200)
shell_unmap-shell_map_example =
    shell_unmap-shell_map 3 200 (omega arith) (omega arith) (omega arith) (omega arith)

abbrev rings : Rings
rings = record { ring0 = (0, 2); ring1 = (1, 1); ring2 = (2, 2); ring3 = (0, 1) }

shell_map-shell_unmap_example :
    (shell_map 3 (shell_unmap 3 rings) ≡ rings) × (shell_unmap 3 rings < 3 ^ 8)
shell_map-shell_unmap_example =
    shell_map-shell_unmap 3 rings (omega arith) (omega arith)
      ((omega arith), (omega arith), (omega arith), (omega arith))

-- A descrambler that has heard other bits before.
abbrev late : Scrambler
late = record (scrambler_init true) { pos = 7 }

strangers : Agree 0 (scrambler_init true) late
unfolding scrambler_init
strangers = record {
  same_a = refl;
  same_b = refl;
  tap_a_pos = omega arith;
  tap_a_le = omega arith;
  tap_b_pos = omega arith;
  tap_b_le = omega arith;
  size = refl;
  size' = refl;
  past = λ delay p q. absurd (omega arith);
}

abbrev some_bits : List ℕ
some_bits = 1 ∷ 0 ∷ 1 ∷ 1 ∷ 0 ∷ []

descramble-scramble_example :
    drop 23
      (descramble late (scramble (scrambler_init true) (some_bits ++ (some_bits ++ some_bits))))
    ≡ drop 23 (map (λ b. b % 2) (some_bits ++ (some_bits ++ some_bits)))
descramble-scramble_example =
    descramble-scramble 0 (scrambler_init true) late (some_bits ++ (some_bits ++ some_bits))
      (omega arith) strangers

-- 33600 bit/s at 3429 symbols per second, with expanded shaping.
abbrev fastest : PcParams
fastest = record {
  sr_idx = 5;
  rate = 33600;
  high_carrier = true;
  expanded = true;
  trn_16pt = false;
  m = 13;
  q = 5;
  k = 27;
  b = 79;
  p = 15;
  j = 8;
  swp = 0x14A5;
  sps_num = 7;
  sps_den = 3;
  cnum = 12;
  cden = 49;
  b1_sym = 120;
  b1_bits = 1176;
  trn_unit_sym = 120;
}

offered : pcparams_init (from_zero 5) 33600 true true false ≡ some fastest
unfolding pcparams_init rateparam ratetab find_rate srates ratetabs rates_3429 params frame_bits
offered = refl

pcparams_init-IsMode_example : IsMode 33600 fastest
pcparams_init-IsMode_example = pcparams_init-IsMode (from_zero 5) 33600 true true false offered

abbrev an_infoh : InfoFrame
an_infoh = infoh (record {
  power_reduction = 3;
  trn_len = 70;
  high_carrier = 1;
  preemph_idx = 6;
  symrate_idx = 5;
  trn_16pt = 0;
})

info_parse-info_build_example :
    info_parse (info_build an_infoh ++ (1 ∷ 0 ∷ [])) (is_infoh an_infoh) ≡ some (sent an_infoh)
info_parse-info_build_example = info_parse-info_build an_infoh (1 ∷ 0 ∷ [])

abbrev an_mph : MphFields
an_mph = record {
  max_rate = 14;
  cc_rate = 1;
  trellis_size = 0;
  nonlinear = 1;
  shaping = 1;
  ack = 0;
  rate_mask = 0x3FFF;
  asym_enable = 0;
  tap_fields =
      some (record { h_re0 = 262; h_im0 = 65000; h_re1 = 0; h_im1 = 7; h_re2 = 3; h_im2 = 0 });
}

in_step : Agree 23 (scrambler_init false) (scrambler_init false)
unfolding scrambler_init
in_step = record {
  same_a = refl;
  same_b = refl;
  tap_a_pos = omega arith;
  tap_a_le = omega arith;
  tap_b_pos = omega arith;
  tap_b_le = omega arith;
  size = refl;
  size' = refl;
  past = λ delay p q. refl;
}

-- A sender whose last point was a quarter turn from the first, and a receiver that saw it.
abbrev sender : CcTx
sender = record { scr = scrambler_init false; zn = 1 }

abbrev demodulator : MpDemod
demodulator = record { prev_quad = some 3; rx = mp_rx_init false }

mp_feed_symbols-cc_tx_mph_example :
    (s' : CcTx) × (zs : List (Bool × Bool)) × (cc_tx_mph sender an_mph ≡ some (s', zs))
    × ((mp_feed_symbols demodulator zs).rx.heard ≡ received an_mph demodulator.rx.heard)
mp_feed_symbols-cc_tx_mph_example =
    mp_feed_symbols-cc_tx_mph sender demodulator an_mph
      (omega arith, unfold mp_quadrant cc_point in refl) (unfold mp_rx_init in in_step)
      (unfold mp_rx_init in refl)

-- A receiver that saw the same point and is between frames.
abbrev listener : CcData
listener = record {
  descr = scrambler_init false;
  prev_quad = some 3;
  alt_last = 0;
  alt_run = 0;
  alt_hold = false;
  hdlc = synchronised;
}

listener-Linked : Linked sender listener
unfolding mp_quadrant cc_point
listener-Linked = record { point = omega arith; at_point = refl; in_step = in_step }

ccdata_feed_symbols-cc_tx_bits_example :
    (s' : CcTx) × (zs : List (Bool × Bool)) × (r : HdlcRx) × (cc_tx_bits sender
        (on_line dcn ++ (1 ∷ []))
      ≡ some (s', zs))
    × Ready r
    × ((ccdata_feed_symbols listener zs).1 ≡ frame dcn true ∷ (put_bits r (1 ∷ [])).1)
    × Linked s' (ccdata_feed_symbols listener zs).0
    × ((ccdata_feed_symbols listener zs).0.hdlc ≡ (put_bits r (1 ∷ [])).0)
ccdata_feed_symbols-cc_tx_bits_example =
    ccdata_feed_symbols-cc_tx_bits sender listener dcn (1 ∷ []) listener-Linked synchronised-Ready
      (omega arith) (omega arith) (omega arith) (unfold stuffed fcs crc16 crc_step in refl)

-- Two sessions at 3429 symbols per second, one of them limited.
abbrev caller : Session
caller = record {
  srate_idx = 5;
  high_carrier = true;
  infoh_16pt = true;
  local_max_rate = 33600;
  remote_max_rate = 0;
  remote_mask = 0;
  rate_cur = 0;
  cc_rate_adv = 1;
  remote_cc_rate = 0;
  cc_rate = 0;
}

abbrev answerer : Session
answerer = record caller { local_max_rate = 14400; cc_rate_adv = 0 }

caller-IsLimited : IsLimited caller
unfolding floor_rate rate_mask mask_rows ratetab ratetabs rates_3429
caller-IsLimited = omega arith

answerer-IsLimited : IsLimited answerer
unfolding floor_rate rate_mask mask_rows ratetab ratetabs rates_3429
answerer-IsLimited = omega arith

hear_mph-Agreed_example :
    Agreed caller answerer
      (hear_mph caller (mph_sent (sess_mph answerer)))
      (hear_mph answerer (mph_sent (sess_mph caller)))
hear_mph-Agreed_example = hear_mph-Agreed caller answerer refl caller-IsLimited answerer-IsLimited
