-- ===== src/T38/Control.antt =====
-- The down interface: `t38_set_tx_type`, `t38_set_rx_type`, `t38_send_hdlc`,
-- `t38_begin_hdlc_stream`, and `nf_t38_init`.
use nospandsp_fax.Common.{ℕ, ◌+◌, ◌-◌, ◌*◌, ◌/◌, Bool, true, false, Option, none, some, List, []}
use nospandsp_fax.Common.{get_or, length, ltb, leb, ◌==◌, ◌&&◌, if◌then◌else◌}
use nospandsp_fax.Common.{CInt, from_zero, below_zero}
use nospandsp_fax.Udptl.Types.{init}
use nospandsp_fax.T38.Wire.{Modem, modem_none, modem_done, pause, ced, cng, map_modem}
use nospandsp_fax.T38.State.{T38, Phase, Follow}
use nospandsp_fax.T38.Emit.{load_hdlc_frame}

-- The fields that `t38_set_tx_type` sets for every modem.
unfoldable pub begin_burst : T38 → Modem → ℕ → Bool → Bool → T38
begin_burst s type rate short_train use_hdlc =
    let (ind, dt) = map_modem type rate short_train in
    record s {
      tx_ind = ind;
      tx_dt = dt;
      tx_bit_rate = if ltb 0 rate then rate else 14400;
      tx_follow = if use_hdlc then Follow.hdlc else Follow.image;
      tx_is_stream = false;
      tx_have_frame = false;
      tx_trailer = 0;
      tx_burst_octets = 0;
      tx_burst_ms = 0;
      tx_frame = [];
      tx_frame_off = 0;
    }

-- The wait of a pause: the rate argument, else the training argument, else 75 ms.
abbrev pub pause_ms : ℕ → ℕ → ℕ
pause_ms rate short_train =
    if ltb 0 rate then rate else if ltb 0 short_train then short_train else 75

-- The `switch` over the type of carrier.
unfoldable pub choose_phase : T38 → Modem → ℕ → ℕ → T38
choose_phase s modem_none rate short_train = record s {
  tx_ind = 0;
  tx_phase = Phase.ind;
  tx_follow = Follow.nothing;
}
choose_phase s modem_done rate short_train = record s {
  tx_ind = 0;
  tx_phase = Phase.ind;
  tx_follow = Follow.nothing;
}
choose_phase s pause rate short_train = record s {
  tx_wait_ms = pause_ms rate short_train;
  tx_phase = Phase.pause_wait;
}
choose_phase s ced rate short_train = record s {
  tx_wait_ms = 200;
  tx_phase = Phase.ind;
  tx_follow = Follow.tone;
}
choose_phase s cng rate short_train = record s {
  tx_wait_ms = 200;
  tx_phase = Phase.ind;
  tx_follow = Follow.tone;
}
choose_phase s _ rate short_train = record s { tx_phase = Phase.ind }

-- Only the slow indicators, up to the V.21 preamble, are sent three times.
unfoldable pub set_repeats : T38 → T38
set_repeats s =
    let repeats = if leb s.tx_ind 3 then 2 else 0 in
    record s { tx_ind_left = elim s.tx_phase [ Phase.ind ↦ repeats | _ ↦ 0 ] }

-- `t38_set_tx_type`
unfoldable pub set_tx_type : T38 → Modem → ℕ → ℕ → Bool → T38
unfolding begin_burst choose_phase set_repeats
set_tx_type s type rate short_train use_hdlc =
    set_repeats
      (choose_phase (begin_burst s type rate (ltb 0 short_train) use_hdlc) type rate short_train)

-- `t38_set_rx_type`
unfoldable pub set_rx_type : T38 → Modem → T38
set_rx_type s modem_none = record s { rx_carrier = false; rx_hdlc = [] }
set_rx_type s _ = record s { rx_hdlc = [] }

-- `t38_send_hdlc` on a message; `none` is the stream restart marker, a negative length.
-- `mcf_drop` is the counter of the test hook, which suppresses the next MCF responses (FCF 0x8C,
-- without the X bit).
unfoldable pub send_hdlc : T38 → Option (List ℕ) → T38
send_hdlc s none = s
send_hdlc s (some msg) =
    let is_mcf = leb 3 (length msg) && (get_or msg 2 0 / 2 * 2 == 0x8C) in
    let hooked : T38 =
      if is_mcf && ltb 0 s.mcf_drop
      then record s { mcf_drop = s.mcf_drop - 1; tx_suppress = true }
      else s in
    record (load_hdlc_frame hooked msg) { tx_have_frame = true }

-- `t38_begin_hdlc_stream`
unfoldable pub begin_hdlc_stream : T38 → T38
begin_hdlc_stream s = record s { tx_is_stream = true }

-- A redundancy that is never negative.
abbrev pub at_least_zero : CInt → ℕ
at_least_zero (from_zero n) = n
at_least_zero (below_zero n) = 0

-- `redundancy + 2` as an `int`: -1 is `below_zero 0`.
unfoldable pub add_two : CInt → CInt
add_two (from_zero n) = from_zero (n + 2)
add_two (below_zero n) = if ltb n 2 then from_zero (1 - n) else below_zero (n - 2)

-- `nf_t38_init`. The environment's overrides of the two depths are `ls` and `hs`, `drops` is that
-- of the test hook.
unfoldable pub t38_init : CInt → CInt → Option CInt → Option CInt → ℕ → T38
unfolding add_two
t38_init redundancy far_max ls hs drops = record {
  udptl = init redundancy far_max;
  tx_phase = Phase.idle;
  tx_next_phase = Phase.idle;
  tx_ind = 0;
  tx_ind_left = 0;
  tx_dt = 0;
  tx_bit_rate = 0;
  red_ls = elim ls [ none ↦ at_least_zero (add_two redundancy) | some n ↦ at_least_zero n ];
  red_hs = elim hs [ none ↦ at_least_zero redundancy | some n ↦ at_least_zero n ];
  tx_follow = Follow.image;
  tx_is_stream = false;
  tx_wait_ms = 0;
  tx_frame = [];
  tx_frame_off = 0;
  tx_have_frame = false;
  tx_trailer = 0;
  tx_burst_octets = 0;
  tx_burst_ms = 0;
  tx_suppress = false;
  mcf_drop = drops;
  rx_hdlc = [];
  rx_carrier = false;
  rx_is_fast = false;
}
