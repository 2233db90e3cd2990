-- ===== src/V34/Rates.antt =====
-- The operating points of the primary channel in nf_v34.c. The values in floating point that
-- `nf_v34_pcparams_init` derives from the same numbers (theta, the symbol rate, the carrier) are
-- left out.
use nospandsp_fax.Common.{ℕ, zero, suc, ◌+◌, ◌-◌, ◌*◌, ◌/◌, ◌%◌, ◌^◌, bit, bit_or, u16}
use nospandsp_fax.Common.{Bool, true, false, not, ◌&&◌, ◌||◌, ltb, leb, ◌==◌, if◌then◌else◌}
use nospandsp_fax.Common.{Option, none, some, ◌>>=◌, ◌>>◌, guard, List, [], ◌∷◌, get_or, get_elem?}
use nospandsp_fax.Common.{CInt, from_zero, below_zero}
use nospandsp_fax.V34.RateTables.{Carrier, SymbolRate, RateParam, srates, ratetabs}
pub mod Modes

-- `nf_v34_ratetab`: out of range there are no rows.
unfoldable pub ratetab : CInt → List RateParam
ratetab (below_zero n) = []
ratetab (from_zero i) = get_or ratetabs i []

unfoldable pub find_rate : ℕ → List RateParam → Option RateParam
find_rate rate [] = none
find_rate rate (r ∷ rows) = if r.rate == rate then some r else find_rate rate rows

-- `nf_v34_rateparam`
unfoldable pub rateparam : CInt → ℕ → Option RateParam
rateparam sr_idx rate = find_rate rate (ratetab sr_idx)

unfoldable pub mask_rows : ℕ → List RateParam → ℕ
mask_rows mask [] = mask
mask_rows mask (r ∷ rows) =
    mask_rows
      (if not r.aux && (r.rate % 2400 == 0) then bit_or mask (2 ^ (r.rate / 2400 - 1)) else mask)
      rows

-- `nf_v34_rate_mask`
unfoldable pub rate_mask : CInt → ℕ
rate_mask sr_idx = mask_rows 0 (ratetab sr_idx)

-- The switching pattern by the counter of 8.2: the frames left, the counter, the pattern so far.
unfoldable pub count_swp : ℕ → ℕ → ℕ → ℕ → ℕ → ℕ
count_swp p rr zero cnt swp = swp
count_swp p rr (suc left) cnt swp =
    let c = cnt + rr in
    count_swp p rr left (if ltb c p then c else c - p)
      (if ltb c p then swp else u16 (bit_or swp (2 ^ left)))

-- `while (b - 12 - 8 * q >= 32) q++;` for 12 < b, given the rounds left.
unfoldable pub find_q : ℕ → ℕ → ℕ → ℕ
find_q b zero q = q
find_q b (suc n) q = let rest = find_q b n (suc q) in if leb 32 (b - 12 - 8 * q) then rest else q

-- The checks of `nf_v34_modeparams_check` on a symbol rate.
unfoldable pub srate_ok : SymbolRate → Bool
srate_ok s =
    ((2 * s.a * 2400 + s.c) / (2 * s.c) == s.baud_name)
    && (s.sps_num * s.a * 2400 == s.sps_den * 8000 * s.c)
    && (s.trn_unit_sym * s.c == 84 * s.a)
    && (s.low.cnum * s.low.e * s.c * 8000 == s.low.cden * s.low.d * s.a * 2400)
    && (s.high.cnum * s.high.e * s.c * 8000 == s.high.cden * s.high.d * s.a * 2400)

-- Its checks on a row, but for M_min and M_exp, which it derives in floating point.
unfoldable pub row_ok : SymbolRate → RateParam → Bool
row_ok s r =
    let n = r.rate * 28 / (100 * s.j) in
    let b = (n + s.p - 1) / s.p in
    let rr = n - (b - 1) * s.p in
    let q = if leb b 12 then 0 else find_q b b 0 in
    let k = if leb b 12 then 0 else b - 12 - 8 * q in
    (r.rate * 28 % (100 * s.j) == 0)
    && ((b == r.b) && (leb 1 rr && leb rr s.p))
    && (count_swp s.p rr s.p 0 0 == r.swp)
    && ((k == r.k) && (q == r.q))
    && leb (4 * r.m_exp * 2 ^ q) 1664

unfoldable pub rows_ok : SymbolRate → List RateParam → Bool
rows_ok s [] = true
rows_ok s (r ∷ rows) = row_ok s r && rows_ok s rows

unfoldable pub modes_ok : List SymbolRate → List (List RateParam) → Bool
modes_ok [] tabs = true
modes_ok (s ∷ rates) [] = false
modes_ok (s ∷ rates) (rows ∷ tabs) = srate_ok s && (rows_ok s rows && modes_ok rates tabs)

-- `nf_v34_pcparams_t`
pub record PcParams : Type 0 where
  pub sr_idx : ℕ
  pub rate : ℕ
  pub high_carrier : Bool
  pub expanded : Bool
  pub trn_16pt : Bool
  pub m : ℕ
  pub q : ℕ
  pub k : ℕ
  pub b : ℕ
  pub p : ℕ
  pub j : ℕ
  pub swp : ℕ
  pub sps_num : ℕ
  pub sps_den : ℕ
  pub cnum : ℕ
  pub cden : ℕ
  pub b1_sym : ℕ
  pub b1_bits : ℕ
  pub trn_unit_sym : ℕ

-- The bits of the mapping frames that are left: the highest bit of the pattern is the first.
unfoldable pub frame_bits : ℕ → ℕ → ℕ → ℕ
frame_bits b swp zero = 0
frame_bits b swp (suc left) = (if bit swp left == 1 then b else b - 1) + frame_bits b swp left

unfoldable pub params : ℕ → SymbolRate → RateParam → Bool → Bool → Bool → PcParams
params sr_idx s r high_carrier expanded trn_16pt =
    let car = if high_carrier then s.high else s.low in
    record {
      sr_idx = sr_idx;
      rate = r.rate;
      high_carrier = high_carrier;
      expanded = expanded;
      trn_16pt = trn_16pt;
      m = if expanded then r.m_exp else r.m_min;
      q = r.q;
      k = r.k;
      b = r.b;
      p = s.p;
      j = s.j;
      swp = r.swp;
      sps_num = s.sps_num;
      sps_den = s.sps_den;
      cnum = car.cnum;
      cden = car.cden;
      b1_sym = 8 * s.p;
      b1_bits = frame_bits r.b r.swp s.p;
      trn_unit_sym = s.trn_unit_sym;
    }

-- `nf_v34_pcparams_init`
unfoldable pub pcparams_init : CInt → ℕ → Bool → Bool → Bool → Option PcParams
pcparams_init (below_zero n) rate high_carrier expanded trn_16pt = none
pcparams_init (from_zero i) rate high_carrier expanded trn_16pt = do
  s ← get_elem? srates i
  r ← rateparam (from_zero i) rate
  guard (not r.aux)
  some (params i s r high_carrier expanded trn_16pt)
