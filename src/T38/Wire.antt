-- ===== src/T38/Wire.antt =====
-- The constants and the pure functions of nf_t38.c: indicator delays, bit reversal, IFP packets
-- and the mapping of modems.
use nospandsp_fax.Common.{ℕ, ◌-◌, ◌*◌, ◌/◌, ◌%◌, Bool, List, [], ◌∷◌, length, bit_and, bit_or}
use nospandsp_fax.Common.{u8, ltb, leb, ◌==◌, ◌||◌, if◌then◌else◌}

-- The slow indicators and the field types that the code names, by their T38_IND and T38_FIELD codes.
abbrev pub ind_no_signal : ℕ
ind_no_signal = 0

abbrev pub ind_cng : ℕ
ind_cng = 1

abbrev pub ind_ced : ℕ
ind_ced = 2

abbrev pub ind_v21_preamble : ℕ
ind_v21_preamble = 3

abbrev pub ft_hdlc_data : ℕ
ft_hdlc_data = 0

abbrev pub ft_hdlc_sig_end : ℕ
ft_hdlc_sig_end = 1

abbrev pub ft_hdlc_fcs_ok : ℕ
ft_hdlc_fcs_ok = 2

abbrev pub ft_hdlc_fcs_bad : ℕ
ft_hdlc_fcs_bad = 3

abbrev pub ft_fcs_ok_sig_end : ℕ
ft_fcs_ok_sig_end = 4

abbrev pub ft_fcs_bad_sig_end : ℕ
ft_fcs_bad_sig_end = 5

abbrev pub ft_non_ecm_data : ℕ
ft_non_ecm_data = 6

abbrev pub ft_non_ecm_sig_end : ℕ
ft_non_ecm_sig_end = 7

-- `indicator_delay`, in ms. The short V.17 trainings have the even codes 8 to 14, the long ones
-- the odd codes 9 to 15.
unfoldable pub indicator_delay : ℕ → ℕ
indicator_delay ind =
    if ind == 3
    then 200
    else if ind == 4
    then 900
    else if ind == 5
    then 700
    else if ind == 6 || ind == 7
    then 270
    else if ind == 8 || (ind == 10 || (ind == 12 || ind == 14))
    then 300
    else if ind == 9 || (ind == 11 || (ind == 13 || ind == 15))
    then 1400
    else 0

-- `bitrev8`
unfoldable pub bitrev8 : ℕ → ℕ
bitrev8 b =
    let halves = u8 (bit_or (bit_and b 0xF0 / 16) (bit_and b 0x0F * 16)) in
    let pairs = u8 (bit_or (bit_and halves 0xCC / 4) (bit_and halves 0x33 * 4)) in
    u8 (bit_or (bit_and pairs 0xAA / 2) (bit_and pairs 0x55 * 2))

-- `ifp_indicator`
unfoldable pub ifp_indicator : ℕ → List ℕ
ifp_indicator ind = u8 (ind * 2) ∷ []

-- `ifp_data`: one data field, with no length if the payload is empty.
unfoldable pub ifp_data : ℕ → ℕ → List ℕ → List ℕ
ifp_data dt ft payload =
    if ltb 0 (length payload)
    then u8 (bit_or 0xC0 (dt * 2))
      ∷ 1
      ∷ u8 (bit_or 0x80 (ft * 16))
      ∷ u8 ((length payload - 1) / 256)
      ∷ ((length payload - 1) % 256)
      ∷ payload
    else u8 (bit_or 0xC0 (dt * 2)) ∷ 1 ∷ u8 (ft * 16) ∷ []

-- The modems of nf_fax.h.
pub data Modem : Type 0 where
  modem_none pause ced cng v21 v27ter v29 v17 v8 v34 modem_done : Modem

-- `map_modem`: the indicator and the data type of a carrier.
unfoldable pub map_modem : Modem → ℕ → Bool → ℕ × ℕ
map_modem v21 rate short_train = (3, 0)
map_modem v27ter rate short_train = if leb 4800 rate then (5, 2) else (4, 1)
map_modem v29 rate short_train = if leb 9600 rate then (7, 4) else (6, 3)
map_modem v17 rate short_train =
    if rate == 14400
    then (if short_train then 14 else 15, 8)
    else if rate == 12000
    then (if short_train then 12 else 13, 7)
    else if rate == 9600
    then (if short_train then 10 else 11, 6)
    else (if short_train then 8 else 9, 5)
map_modem ced rate short_train = (2, 0)
map_modem cng rate short_train = (1, 0)
map_modem _ rate short_train = (0, 0)
