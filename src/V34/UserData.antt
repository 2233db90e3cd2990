-- ===== src/V34/UserData.antt =====
-- The user data of the control channel in nf_v34.c, received at 1200 bit/s: `nf_v34_ccdata_rx_t`
-- hands the bits of each symbol to the HDLC receiver of nf_hdlc.c, whose events are returned.
use nospandsp_fax.Common.{
  ℕ, zero, suc, ◌+◌, ◌-◌, ◌/◌, ◌%◌, Bool, true, false, ◌||◌, leb, ◌==◌, if◌then◌else◌,
}
use nospandsp_fax.Common.{Option, none, some, List, [], ◌∷◌, ◌++◌}
use nospandsp_fax.Hdlc.Rx.{HdlcRx, Event, rx_init, put_bit}
use nospandsp_fax.V34.Scrambler.{Scrambler, scrambler_init, descramble_bit}
use nospandsp_fax.V34.Channel.{mp_quadrant}
pub mod Carried

-- `nf_v34_ccdata_rx_t` at 1200 bit/s, its quadrant `none` before the first symbol.
pub record CcData : Type 0 where
  pub descr : Scrambler
  pub prev_quad : Option ℕ
  pub alt_last : ℕ
  pub alt_run : ℕ
  pub alt_hold : Bool
  pub hdlc : HdlcRx

-- `nf_v34_ccdata_rx_init`
unfoldable pub ccdata_rx_init : Bool → CcData
ccdata_rx_init is_call_modem = record {
  descr = scrambler_init is_call_modem;
  prev_quad = none;
  alt_last = 0;
  alt_run = 0;
  alt_hold = false;
  hdlc = rx_init 1;
}

-- The watch for a peer that holds ALT.
unfoldable pub watch_alt : CcData → ℕ → ℕ → CcData
watch_alt s b0 b1 =
    let run0 = if b0 == s.alt_last then 0 else s.alt_run + 1 in
    let run1 = if b1 == b0 then 0 else run0 + 1 in
    record s { alt_run = run1; alt_last = b1; alt_hold = s.alt_hold || leb 600 run1 }

-- The two bits of a turn.
unfoldable pub take_turn : CcData → ℕ → CcData × List Event
take_turn s delta =
    let (descr1, b0) = descramble_bit s.descr (delta % 2) in
    let (descr2, b1) = descramble_bit descr1 (delta / 2 % 2) in
    let (hdlc1, events1) = put_bit s.hdlc b0 in
    let (hdlc2, events2) = put_bit hdlc1 b1 in
    (watch_alt (record s { descr = descr2; hdlc = hdlc2 }) b0 b1, events1 ++ events2)

unfoldable pub turn_from : Option ℕ → CcData → ℕ → CcData × List Event
turn_from none s quad = (s, [])
turn_from (some prev) s quad = take_turn s ((prev + 4 - quad) % 4)

-- `nf_v34_ccdata_feed_symbol` at 1200 bit/s
unfoldable pub ccdata_feed_symbol : CcData → Bool × Bool → CcData × List Event
ccdata_feed_symbol s z =
    let quad = mp_quadrant z in turn_from s.prev_quad (record s { prev_quad = some quad }) quad

-- The symbols in order.
unfoldable pub ccdata_feed_symbols : CcData → List (Bool × Bool) → CcData × List Event
ccdata_feed_symbols s [] = (s, [])
ccdata_feed_symbols s (z ∷ zs) =
    let (s1, events1) = ccdata_feed_symbol s z in
    let (s2, events2) = ccdata_feed_symbols s1 zs in (s2, events1 ++ events2)
