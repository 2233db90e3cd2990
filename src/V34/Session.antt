-- ===== src/V34/Session.antt =====
-- How a session of nf_v34.c chooses the rate of the primary channel and that of the control
-- channel. The sums over MPh masks are tests of their bits.
use nospandsp_fax.Common.{ℕ, zero, suc, ◌+◌, ◌-◌, ◌*◌, ◌/◌, ◌%◌, ◌^◌, bit, bit_and}
use nospandsp_fax.Common.{Bool, true, false, not, ◌&&◌, ltb, leb, ◌==◌, if◌then◌else◌}
use nospandsp_fax.Common.{Option, none, some, CInt, from_zero}
use nospandsp_fax.V34.Rates.{rate_mask, PcParams, pcparams_init}
use nospandsp_fax.V34.Info.{InfoFrame, info0, infoh}
use nospandsp_fax.V34.Mp.{MpFields, MphFields}
pub mod Agreement

-- The highest rate in a mask, up to a number of 2400 bit/s.
unfoldable pub highest : ℕ → ℕ → ℕ
highest mask zero = 0
highest mask (suc i) = let rest = highest mask i in if bit mask i == 1 then suc i * 2400 else rest

-- The lowest, from a number on, of so many.
unfoldable pub lowest : ℕ → ℕ → ℕ → ℕ
lowest mask i zero = 0
lowest mask i (suc left) =
    let rest = lowest mask (suc i) left in if bit mask (i - 1) == 1 then i * 2400 else rest

-- `v34_sess_top_rate`
unfoldable pub top_rate : ℕ → ℕ
unfolding highest
top_rate sr = highest (rate_mask (from_zero sr)) 14

-- `v34_sess_floor_rate`
unfoldable pub floor_rate : ℕ → ℕ
unfolding lowest
floor_rate sr = lowest (rate_mask (from_zero sr)) 1 14

-- What of `struct nf_v34_sess` is about rates.
pub record Session : Type 0 where
  pub srate_idx : ℕ
  pub high_carrier : Bool
  pub infoh_16pt : Bool
  pub local_max_rate : ℕ
  pub remote_max_rate : ℕ
  pub remote_mask : ℕ
  pub rate_cur : ℕ
  pub cc_rate_adv : ℕ
  pub remote_cc_rate : ℕ
  pub cc_rate : ℕ

-- `nf_v34_sess_set_max_rate`
unfoldable pub set_max_rate : Session → ℕ → Session
set_max_rate s rate =
    let whole = rate - rate % 2400 in
    let capped = if ltb (top_rate s.srate_idx) whole then top_rate s.srate_idx else whole in
    record s {
      local_max_rate =
          if ltb capped (floor_rate s.srate_idx) then floor_rate s.srate_idx else capped;
    }

-- The rate that `v34_sess_pick_rate` selects.
unfoldable pub picked : ℕ → ℕ → ℕ → ℕ → ℕ
picked sr local_max remote_max remote_mask =
    let own = rate_mask (from_zero sr) in
    let seen = ltb 0 remote_max in
    let cap = if seen && ltb remote_max local_max then remote_max else local_max in
    let rate = highest (if seen then bit_and own remote_mask else own) (cap / 2400) in
    if rate == 0 then floor_rate sr else rate

-- `v34_sess_pick_rate`
unfoldable pub pick_rate : Session → Session
unfolding picked
pick_rate s = record s {
  rate_cur = picked s.srate_idx s.local_max_rate s.remote_max_rate s.remote_mask;
}

-- `v34_sess_pick_cc_rate`
unfoldable pub pick_cc_rate : Session → Session
pick_cc_rate s = record s {
  cc_rate = if not (s.cc_rate_adv == 0) && not (s.remote_cc_rate == 0) then 1 else 0;
}

-- `v34_sess_mph`
unfoldable pub sess_mph : Session → MphFields
sess_mph s =
    let cap = s.local_max_rate / 2400 in
    record {
      max_rate = cap;
      cc_rate = s.cc_rate_adv;
      trellis_size = 0;
      nonlinear = 1;
      shaping = 1;
      ack = 0;
      rate_mask = bit_and (rate_mask (from_zero s.srate_idx)) (2 ^ cap - 1);
      asym_enable = 0;
      tap_fields = none;
    }

-- What `v34_sess_cc_symbol` and `v34_sess_process_cc` take from a frame of the other side.
unfoldable pub hear_mph : Session → MpFields → Session
unfolding pick_rate pick_cc_rate
hear_mph s f = pick_cc_rate (
    pick_rate (record s {
      remote_max_rate = f.max_rate_c2a * 2400;
      remote_mask = f.rate_mask;
      remote_cc_rate = f.cc_rate;
    }))

-- `v34_sess_info0`
unfoldable pub sess_info0 : ℕ → InfoFrame
sess_info0 ack = info0 (record {
  sr2743 = 1;
  sr2800 = 1;
  sr3429 = 1;
  low3000 = 1;
  high3000 = 1;
  low3200 = 1;
  high3200 = 1;
  allow_3429 = 1;
  can_reduce_power = 0;
  max_sr_diff = 0;
  from_cme = 0;
  support_1664pt = 1;
  clock_source = 0;
  info0_ack = ack;
})

-- `v34_sess_infoh`
unfoldable pub sess_infoh : Session → InfoFrame
sess_infoh s = infoh (record {
  power_reduction = 0;
  trn_len = 40;
  high_carrier = if s.high_carrier then 1 else 0;
  preemph_idx = 0;
  symrate_idx = s.srate_idx;
  trn_16pt = 1;
})

-- `v34_sess_pcparams`, at the highest rate for 0.
unfoldable pub sess_pcparams : Session → ℕ → Option PcParams
sess_pcparams s rate =
    pcparams_init (from_zero s.srate_idx) (if rate == 0 then top_rate s.srate_idx else rate)
      s.high_carrier true s.infoh_16pt
