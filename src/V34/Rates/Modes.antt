-- ===== src/V34/Rates/Modes.antt =====
-- What every operating point that nf_v34.c offers has in common.
use nospandsp_fax.Common.{ℕ, zero, suc, ◌*◌, ◌^◌, ◌≤◌, ◌<◌, ◌≡◌, refl, arith}
use nospandsp_fax.Common.{Bool, true, false, not, ◌&&◌, ltb, leb, ◌==◌}
use nospandsp_fax.Common.{Option, none, some, guard, >>=-eq-some}
use nospandsp_fax.Common.{List, [], ◌∷◌, get_or, get_elem?, CInt, from_zero, below_zero}
use nospandsp_fax.V34.RateTables.{
  SymbolRate, RateParam, srates, ratetabs, rates_2400, rates_2743, rates_2800, rates_3000,
  rates_3200, rates_3429,
}
use nospandsp_fax.V34.Rates.{
  ratetab, find_rate, rateparam, PcParams, frame_bits, params, pcparams_init, modes_ok, srate_ok,
  rows_ok, row_ok, count_swp, find_q,
}
use nospandsp_fax.V34.Shell.{shell_map, shell_unmap}
use nospandsp_fax.V34.Shell.RoundTrip.{AreRings}
use nospandsp_fax.V34.Shell.Bijection.{shell_unmap-shell_map}
use native.Mathlib.Nat.{pow-le-pow_right}
use mathlib.Core.Path.{subst}

-- The test of the source, at its tables.
tables_ok : modes_ok srates ratetabs ≡ true
unfolding modes_ok srate_ok rows_ok row_ok count_swp find_q srates ratetabs rates_2400 rates_2743
    rates_2800 rates_3000 rates_3200 rates_3429
tables_ok = refl

rings_hold : ℕ → ℕ → Bool
rings_hold m k = leb 1 m && (leb m 32 && leb (2 ^ k) (m ^ 8))

fits : SymbolRate → RateParam → Bool
fits s r =
    (frame_bits r.b r.swp s.p * (100 * s.j) == r.rate * 28)
    && (rings_hold r.m_min r.k && rings_hold r.m_exp r.k)
    && (ltb r.k 32 && (leb (4 * r.m_min * 2 ^ r.q) 1664 && leb (4 * r.m_exp * 2 ^ r.q) 1664))

all_fit : SymbolRate → List RateParam → Bool
all_fit s [] = true
all_fit s (r ∷ rows) = fits s r && all_fit s rows

modes_fit : List SymbolRate → List (List RateParam) → Bool
modes_fit [] tabs = true
modes_fit (s ∷ rates) [] = false
modes_fit (s ∷ rates) (rows ∷ tabs) = all_fit s rows && modes_fit rates tabs

tables_fit : modes_fit srates ratetabs ≡ true
unfolding modes_fit all_fit fits rings_hold frame_bits srates ratetabs rates_2400 rates_2743
    rates_2800 rates_3000 rates_3200 rates_3429
tables_fit = refl

find_rate-fits :
    (s : SymbolRate) (rate : ℕ) (rows : List RateParam) {r : RateParam}
    → all_fit s rows ≡ true
    → find_rate rate rows ≡ some r
    → (fits s r ≡ true) × (r.rate ≡ rate)
unfolding all_fit find_rate
find_rate-fits s rate [] h e = cc
find_rate-fits s rate (x ∷ rows) {r} h e = ground (arith, find_rate-fits s rate rows {r = r})

mode_fits :
    (ss : List SymbolRate) (tabs : List (List RateParam)) (i : ℕ) {s : SymbolRate}
    → modes_fit ss tabs ≡ true
    → get_elem? ss i ≡ some s
    → all_fit s (get_or tabs i []) ≡ true
unfolding modes_fit
mode_fits [] tabs i h e = cc
mode_fits (s ∷ ss) [] i h e = cc
mode_fits (s ∷ ss) (rows ∷ tabs) zero h e = ground arith
mode_fits (s ∷ ss) (rows ∷ tabs) (suc i) h e = mode_fits ss tabs i (ground arith) e

-- What an operating point promises to the encoder and the decoder.
pub record IsMode (rate : ℕ) (pp : PcParams) : Type 0 where
  pub bits_of_frame : pp.b1_bits * (100 * pp.j) ≡ rate * 28
  pub some_rings : 0 < pp.m
  pub few_rings : pp.m ≤ 32
  pub enough_rings : 2 ^ pp.k ≤ pp.m ^ 8
  pub word : pp.k < 32
  pub points : 4 * pp.m * 2 ^ pp.q ≤ 1664

abbrev Holds : ℕ → Option PcParams → Type 0
Holds rate none = Unit
Holds rate (some pp) = IsMode rate pp

params-IsMode :
    (i : ℕ) (s : SymbolRate) (r : RateParam) (hc ex trn : Bool)
    → fits s r ≡ true
    → IsMode r.rate (params i s r hc ex trn)
unfolding fits rings_hold params
params-IsMode i s r hc true trn h = record {
  bits_of_frame = ground arith;
  some_rings = ground arith;
  few_rings = ground arith;
  enough_rings = ground arith;
  word = ground arith;
  points = ground arith;
}
params-IsMode i s r hc false trn h = record {
  bits_of_frame = ground arith;
  some_rings = ground arith;
  few_rings = ground arith;
  enough_rings = ground arith;
  word = ground arith;
  points = ground arith;
}

-- In every operating point that is offered, the mapping frames of a data frame carry together
-- rate * 0.28 / J bits, the K bits that the shell mapper takes are less than 32 and have at most as
-- many values as eight rings have choices, there are at most 32 rings, and the constellation has at
-- most 1664 points.
pub pcparams_init-IsMode :
    (sr_idx : CInt) (rate : ℕ) (hc ex trn : Bool) {pp : PcParams}
    → pcparams_init sr_idx rate hc ex trn ≡ some pp
    → IsMode rate pp
unfolding pcparams_init rateparam ratetab
pcparams_init-IsMode (below_zero n) rate hc ex trn h = cc
pcparams_init-IsMode (from_zero i) rate hc ex trn {pp} h =
    let (s, has_s, h1) = >>=-eq-some (get_elem? srates i) _ h in
    let (r, has_r, h2) = >>=-eq-some (rateparam (from_zero i) rate) _ h1 in
    let (u, guarded, last) = >>=-eq-some (guard (not r.aux)) _ h2 in
    let (fit, named) =
      find_rate-fits s rate (get_or ratetabs i []) (mode_fits srates ratetabs i tables_fit has_s)
        has_r in
    subst (λ (n : ℕ). IsMode n pp) named
      (subst (λ (o : Option PcParams). Holds r.rate o) last (params-IsMode i s r hc ex trn fit))

-- In every operating point that is offered, each number of the K bits of a mapping frame is mapped
-- to rings and back.
pub pcparams_init-shell :
    (sr_idx : CInt) (rate : ℕ) (hc ex trn : Bool) {pp : PcParams} (r0 : ℕ)
    → pcparams_init sr_idx rate hc ex trn ≡ some pp
    → r0 < 2 ^ pp.k
    → (shell_unmap pp.m (shell_map pp.m r0) ≡ r0) × AreRings pp.m (shell_map pp.m r0)
pcparams_init-shell sr_idx rate hc ex trn {pp} r0 h lt =
    let mode = pcparams_init-IsMode sr_idx rate hc ex trn h in
    let narrow : 2 ^ pp.k ≤ 2 ^ 32 =
      pow-le-pow_right {n = 2} (omega arith) {j = 32} (omega (arith, mode.word)) in
    shell_unmap-shell_map pp.m r0 (mode.some_rings) (mode.few_rings)
      (omega (arith, mode.enough_rings)) (omega arith)
