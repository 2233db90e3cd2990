-- ===== src/V34/RateTables.antt =====
-- The mode tables of nf_v34.c: symbol rates, and the data rates at each of them.
use nospandsp_fax.Common.{ℕ, Bool, true, false, List, [], ◌∷◌}

-- One carrier of a symbol rate.
pub record Carrier : Type 0 where
  pub d : ℕ
  pub e : ℕ
  pub cnum : ℕ
  pub cden : ℕ

-- `nf_v34_srate_t`
pub record SymbolRate : Type 0 where
  pub baud_name : ℕ
  pub a : ℕ
  pub c : ℕ
  pub sps_num : ℕ
  pub sps_den : ℕ
  pub j : ℕ
  pub p : ℕ
  pub low : Carrier
  pub high : Carrier
  pub trn_unit_sym : ℕ

-- `nf_v34_rateparam_t`
pub record RateParam : Type 0 where
  pub rate : ℕ
  pub aux : Bool
  pub b : ℕ
  pub swp : ℕ
  pub k : ℕ
  pub q : ℕ
  pub m_min : ℕ
  pub m_exp : ℕ

abbrev carrier : ℕ → ℕ → ℕ → ℕ → Carrier
carrier d e cnum cden = record { d = d; e = e; cnum = cnum; cden = cden }

abbrev symbol_rate : ℕ → ℕ → ℕ → ℕ → ℕ → ℕ → ℕ → Carrier → Carrier → ℕ → SymbolRate
symbol_rate baud_name a c sps_num sps_den j p low high trn = record {
  baud_name = baud_name;
  a = a;
  c = c;
  sps_num = sps_num;
  sps_den = sps_den;
  j = j;
  p = p;
  low = low;
  high = high;
  trn_unit_sym = trn;
}

abbrev row : ℕ → Bool → ℕ → ℕ → ℕ → ℕ → ℕ → ℕ → RateParam
row rate aux b swp k q m_min m_exp = record {
  rate = rate;
  aux = aux;
  b = b;
  swp = swp;
  k = k;
  q = q;
  m_min = m_min;
  m_exp = m_exp;
}

unfoldable pub srates : List SymbolRate
srates =
    symbol_rate 2400 1 1 10 3 7 12 (carrier 2 3 1 5) (carrier 3 4 9 40) 84
    ∷ symbol_rate 2743 8 7 35 12 8 12 (carrier 3 5 36 175) (carrier 2 3 8 35) 96
    ∷ symbol_rate 2800 7 6 20 7 7 14 (carrier 3 5 21 100) (carrier 2 3 7 30) 98
    ∷ symbol_rate 3000 5 4 8 3 7 15 (carrier 3 5 9 40) (carrier 2 3 1 4) 105
    ∷ symbol_rate 3200 4 3 5 2 7 16 (carrier 4 7 8 35) (carrier 3 5 6 25) 112
    ∷ symbol_rate 3429 10 7 7 3 8 15 (carrier 4 7 12 49) (carrier 4 7 12 49) 120
    ∷ []

unfoldable pub rates_2400 : List RateParam
rates_2400 =
    row 2400 false 8 0xFFF 0 0 1 1
    ∷ row 2600 true 9 0x6DB 0 0 1 1
    ∷ row 4800 false 16 0xFFF 4 0 2 2
    ∷ row 5000 true 17 0x6DB 5 0 2 2
    ∷ row 7200 false 24 0xFFF 12 0 3 4
    ∷ row 7400 true 25 0x6DB 13 0 4 4
    ∷ row 9600 false 32 0xFFF 20 0 6 7
    ∷ row 9800 true 33 0x6DB 21 0 7 8
    ∷ row 12000 false 40 0xFFF 28 0 12 14
    ∷ row 12200 true 41 0x6DB 29 0 13 15
    ∷ row 14400 false 48 0xFFF 28 1 12 14
    ∷ row 14600 true 49 0x6DB 29 1 13 15
    ∷ row 16800 false 56 0xFFF 28 2 12 14
    ∷ row 17000 true 57 0x6DB 29 2 13 15
    ∷ row 19200 false 64 0xFFF 28 3 12 14
    ∷ row 19400 true 65 0x6DB 29 3 13 15
    ∷ row 21600 false 72 0xFFF 28 4 12 14
    ∷ row 21800 true 73 0x6DB 29 4 13 15
    ∷ []

unfoldable pub rates_2743 : List RateParam
rates_2743 =
    row 4800 false 14 0xFFF 2 0 2 2
    ∷ row 5000 true 15 0x56B 3 0 2 2
    ∷ row 7200 false 21 0xFFF 9 0 3 3
    ∷ row 7400 true 22 0x56B 10 0 3 3
    ∷ row 9600 false 28 0xFFF 16 0 4 5
    ∷ row 9800 true 29 0x56B 17 0 5 5
    ∷ row 12000 false 35 0xFFF 23 0 8 9
    ∷ row 12200 true 36 0x56B 24 0 8 10
    ∷ row 14400 false 42 0xFFF 30 0 14 17
    ∷ row 14600 true 43 0x56B 31 0 15 18
    ∷ row 16800 false 49 0xFFF 29 1 13 15
    ∷ row 17000 true 50 0x56B 30 1 14 17
    ∷ row 19200 false 56 0xFFF 28 2 12 14
    ∷ row 19400 true 57 0x56B 29 2 13 15
    ∷ row 21600 false 63 0xFFF 27 3 11 13
    ∷ row 21800 true 64 0x56B 28 3 12 14
    ∷ row 24000 false 70 0xFFF 26 4 10 12
    ∷ row 24200 true 71 0x56B 27 4 11 13
    ∷ row 26400 false 77 0xFFF 25 5 9 11
    ∷ row 26600 true 78 0x56B 26 5 10 12
    ∷ []

unfoldable pub rates_2800 : List RateParam
rates_2800 =
    row 4800 false 14 0x1BB7 2 0 2 2
    ∷ row 5000 true 15 0x0489 3 0 2 2
    ∷ row 7200 false 21 0x15AB 9 0 3 3
    ∷ row 7400 true 22 0x0081 10 0 3 3
    ∷ row 9600 false 28 0x0A95 16 0 4 5
    ∷ row 9800 true 28 0x3FFF 16 0 4 5
    ∷ row 12000 false 35 0x0489 23 0 8 9
    ∷ row 12200 true 35 0x1FBF 23 0 8 9
    ∷ row 14400 false 42 0x0081 30 0 14 17
    ∷ row 14600 true 42 0x1BB7 30 0 14 17
    ∷ row 16800 false 48 0x3FFF 28 1 12 14
    ∷ row 17000 true 49 0x15AB 29 1 13 15
    ∷ row 19200 false 55 0x1FBF 27 2 11 13
    ∷ row 19400 true 56 0x0A95 28 2 12 14
    ∷ row 21600 false 62 0x1BB7 26 3 10 12
    ∷ row 21800 true 63 0x0489 27 3 11 13
    ∷ row 24000 false 69 0x15AB 25 4 9 11
    ∷ row 24200 true 70 0x0081 26 4 10 12
    ∷ row 26400 false 76 0x0A95 24 5 8 10
    ∷ row 26600 true 76 0x3FFF 24 5 8 10
    ∷ []

unfoldable pub rates_3000 : List RateParam
rates_3000 =
    row 4800 false 13 0x3DEF 1 0 2 2
    ∷ row 5000 true 14 0x1249 2 0 2 2
    ∷ row 7200 false 20 0x0421 8 0 2 3
    ∷ row 7400 true 20 0x3777 8 0 2 3
    ∷ row 9600 false 26 0x2D6B 14 0 4 4
    ∷ row 9800 true 27 0x0081 15 0 4 5
    ∷ row 12000 false 32 0x7FFF 20 0 6 7
    ∷ row 12200 true 33 0x2AAB 21 0 7 8
    ∷ row 14400 false 39 0x14A5 27 0 11 13
    ∷ row 14600 true 39 0x3FFF 27 0 11 13
    ∷ row 16800 false 45 0x3DEF 25 1 9 11
    ∷ row 17000 true 46 0x1249 26 1 10 12
    ∷ row 19200 false 52 0x0421 24 2 8 10
    ∷ row 19400 true 52 0x3777 24 2 8 10
    ∷ row 21600 false 58 0x2D6B 30 2 14 17
    ∷ row 21800 true 59 0x0081 31 2 15 18
    ∷ row 24000 false 64 0x7FFF 28 3 12 14
    ∷ row 24200 true 65 0x2AAB 29 3 13 15
    ∷ row 26400 false 71 0x14A5 27 4 11 13
    ∷ row 26600 true 71 0x3FFF 27 4 11 13
    ∷ row 28800 false 77 0x3DEF 25 5 9 11
    ∷ row 29000 true 78 0x1249 26 5 10 12
    ∷ []

unfoldable pub rates_3200 : List RateParam
rates_3200 =
    row 4800 false 12 0xFFFF 0 0 1 1
    ∷ row 5000 true 13 0x5555 1 0 2 2
    ∷ row 7200 false 18 0xFFFF 6 0 2 2
    ∷ row 7400 true 19 0x5555 7 0 2 2
    ∷ row 9600 false 24 0xFFFF 12 0 3 4
    ∷ row 9800 true 25 0x5555 13 0 4 4
    ∷ row 12000 false 30 0xFFFF 18 0 5 6
    ∷ row 12200 true 31 0x5555 19 0 6 6
    ∷ row 14400 false 36 0xFFFF 24 0 8 10
    ∷ row 14600 true 37 0x5555 25 0 9 11
    ∷ row 16800 false 42 0xFFFF 30 0 14 17
    ∷ row 17000 true 43 0x5555 31 0 15 18
    ∷ row 19200 false 48 0xFFFF 28 1 12 14
    ∷ row 19400 true 49 0x5555 29 1 13 15
    ∷ row 21600 false 54 0xFFFF 26 2 10 12
    ∷ row 21800 true 55 0x5555 27 2 11 13
    ∷ row 24000 false 60 0xFFFF 24 3 8 10
    ∷ row 24200 true 61 0x5555 25 3 9 11
    ∷ row 26400 false 66 0xFFFF 30 3 14 17
    ∷ row 26600 true 67 0x5555 31 3 15 18
    ∷ row 28800 false 72 0xFFFF 28 4 12 14
    ∷ row 29000 true 73 0x5555 29 4 13 15
    ∷ row 31200 false 78 0xFFFF 26 5 10 12
    ∷ row 31400 true 79 0x5555 27 5 11 13
    ∷ []

unfoldable pub rates_3429 : List RateParam
rates_3429 =
    row 4800 false 12 0x0421 0 0 1 1
    ∷ row 5000 true 12 0x36DB 0 0 1 1
    ∷ row 7200 false 17 0x3DEF 5 0 2 2
    ∷ row 7400 true 18 0x0889 6 0 2 2
    ∷ row 9600 false 23 0x14A5 11 0 3 3
    ∷ row 9800 true 23 0x3F7F 11 0 3 3
    ∷ row 12000 false 28 0x7FFF 16 0 4 5
    ∷ row 12200 true 29 0x1555 17 0 5 5
    ∷ row 14400 false 34 0x2D6B 22 0 7 8
    ∷ row 14600 true 35 0x0001 23 0 8 9
    ∷ row 16800 false 40 0x0421 28 0 12 14
    ∷ row 17000 true 40 0x36DB 28 0 12 14
    ∷ row 19200 false 45 0x3DEF 25 1 9 11
    ∷ row 19400 true 46 0x0889 26 1 10 12
    ∷ row 21600 false 51 0x14A5 31 1 15 18
    ∷ row 21800 true 51 0x3F7F 31 1 15 18
    ∷ row 24000 false 56 0x7FFF 28 2 12 14
    ∷ row 24200 true 57 0x1555 29 2 13 15
    ∷ row 26400 false 62 0x2D6B 26 3 10 12
    ∷ row 26600 true 63 0x0001 27 3 11 13
    ∷ row 28800 false 68 0x0421 24 4 8 10
    ∷ row 29000 true 68 0x36DB 24 4 8 10
    ∷ row 31200 false 73 0x3DEF 29 4 13 15
    ∷ row 31400 true 74 0x0889 30 4 14 17
    ∷ row 33600 false 79 0x14A5 27 5 11 13
    ∷ row 33800 true 79 0x3F7F 27 5 11 13
    ∷ []

-- `v34_ratetabs`
unfoldable pub ratetabs : List (List RateParam)
ratetabs = rates_2400 ∷ rates_2743 ∷ rates_2800 ∷ rates_3000 ∷ rates_3200 ∷ rates_3429 ∷ []
