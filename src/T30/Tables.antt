-- ===== src/T30/Tables.antt =====
-- The constants and the tables of nf_t30.c and nf_wire.h: frame codes, the bits of an information
-- field, the fallback table, resolutions and scan line times.
use nospandsp_fax.Common.{
  ℕ, zero, suc, ◌+◌, ◌-◌, ◌*◌, ◌/◌, ◌%◌, ◌^◌, Bool, true, false, Option, none, some, List, [], ◌∷◌,
}
use nospandsp_fax.Common.{get_or, length, set, leb, ltb, ◌==◌, if◌then◌else◌, bit, bit_or}

abbrev pub addr : ℕ
addr = 0xFF

abbrev pub ctl_final : ℕ
ctl_final = 0x13

abbrev pub ctl_nonfinal : ℕ
ctl_nonfinal = 0x03

abbrev pub t30_info_off : ℕ
t30_info_off = 3

abbrev pub t4_fcd : ℕ
t4_fcd = 0x06

abbrev pub t4_rcp : ℕ
t4_rcp = 0x86

abbrev pub ecm_octets : ℕ
ecm_octets = 256

-- The NF_MODEM_* types of a burst.
pub data Modem : Type 0 where
  no_modem pause ced cng v21 v27ter v29 v17 v8 v34 done : Modem

-- `set_bit` and `set_bits`: OR into the octet of the information field that holds bit `b`.
abbrev pub set_bits : List ℕ → ℕ → ℕ → List ℕ
set_bits f v b =
    let idx = t30_info_off + (b - 1) / 8 in
    set f idx (bit_or (get_or f idx 0) (v * 2 ^ ((b - 1) % 8) % 256))

abbrev pub set_bit : List ℕ → ℕ → List ℕ
set_bit f b = set_bits f 1 b

-- A bit behind the end of the frame is 0.
abbrev pub test_bit : List ℕ → ℕ → Bool
test_bit f b =
    let idx = t30_info_off + (b - 1) / 8 in
    if leb (length f) idx then false else bit (get_or f idx 0) ((b - 1) % 8) == 1

-- DISBIT6, DISBIT5, DISBIT4 and DISBIT3 of an octet.
abbrev pub dis_modem_bits : ℕ → ℕ
dis_modem_bits b = b / 4 % 16 * 4

-- A row of the fallback table.
pub record Fallback : Type 0 where
  pub rate : ℕ
  pub modem : Modem
  pub dcs : ℕ

abbrev pub fb_row : ℕ → Modem → ℕ → Fallback
fb_row rate modem dcs = record { rate = rate; modem = modem; dcs = dcs }

abbrev pub fb_table : List Fallback
fb_table =
    fb_row 14400 v17 0x20
    ∷ fb_row 12000 v17 0x28
    ∷ fb_row 9600 v17 0x24
    ∷ fb_row 9600 v29 0x04
    ∷ fb_row 7200 v17 0x2C
    ∷ fb_row 7200 v29 0x0C
    ∷ fb_row 4800 v27ter 0x08
    ∷ fb_row 2400 v27ter 0
    ∷ []

abbrev pub fb_v17_start : ℕ
fb_v17_start = 0

abbrev pub fb_v29_start : ℕ
fb_v29_start = 3

abbrev pub fb_v27_start : ℕ
fb_v27_start = 6

abbrev pub fb_len : ℕ
fb_len = 8

abbrev pub fb : ℕ → Fallback
fb i = get_or fb_table i (fb_row 2400 v27ter 0)

-- The first allowed row of a list of rows that starts at row `i`.
unfoldable pub scan_allowed : (Modem → Bool) → List Fallback → ℕ → Option ℕ
scan_allowed allowed [] i = none
scan_allowed allowed (row ∷ rows) i =
    let later = scan_allowed allowed rows (suc i) in if allowed row.modem then some i else later

-- The rows from row `i` on.
abbrev pub rows_from : List Fallback → ℕ → List Fallback
rows_from rows zero = rows
rows_from [] (suc i) = []
rows_from (row ∷ rows) (suc i) = rows_from rows i

-- `next_allowed_fb`, for an `i` that is not negative; which modems are allowed is set outside.
unfoldable pub next_allowed_fb : (Modem → Bool) → ℕ → Option ℕ
unfolding scan_allowed
next_allowed_fb allowed i = scan_allowed allowed (rows_from fb_table i) i

-- The first row with the given modem bits.
unfoldable pub scan_dcs : ℕ → List Fallback → ℕ → Option ℕ
scan_dcs bits [] i = none
scan_dcs bits (row ∷ rows) i =
    let later = scan_dcs bits rows (suc i) in if row.dcs == bits then some i else later

-- `fb_from_dcs_byte`
unfoldable pub fb_from_dcs_byte : ℕ → Option ℕ
unfolding scan_dcs
fb_from_dcs_byte b = scan_dcs (dis_modem_bits b) fb_table 0

-- `parse_dis_pick_fallback`, from octet 4 of the far DIS.
unfoldable pub parse_dis_pick_fallback : ℕ → Option ℕ
parse_dis_pick_fallback octet =
    let m = dis_modem_bits octet in
    if m == 0x2C
    then some fb_v17_start
    else if m == 0x0C
    then some fb_v29_start
    else if m == 0x08
    then some fb_v27_start
    else if m == 0
    then some (fb_v27_start + 1)
    else if m == 0x04
    then some fb_v29_start
    else none

-- NF_RES_*
pub data Res : Type 0 where
  standard fine superfine res_300 res_400 : Res

-- `res_dis_bit`: the bit that stands for a resolution, 0 for none.
abbrev pub res_dis_bit : Res → ℕ
res_dis_bit fine = 15
res_dis_bit superfine = 41
res_dis_bit res_300 = 42
res_dis_bit res_400 = 43
res_dis_bit standard = 0

-- `res_to_dpi`: across and down.
abbrev pub res_to_dpi : Res → ℕ × ℕ
res_to_dpi fine = (204, 196)
res_to_dpi superfine = (204, 391)
res_to_dpi res_300 = (300, 300)
res_to_dpi res_400 = (400, 400)
res_to_dpi standard = (204, 98)

abbrev pub res_width : Res → ℕ
res_width res_300 = 2592
res_width res_400 = 3456
res_width standard = 1728
res_width fine = 1728
res_width superfine = 1728

-- `classify_res`; `ydpi` is rounded up to a whole number, which the comparisons do not notice.
unfoldable pub classify_res : ℕ → ℕ → Res
classify_res width ydpi =
    if leb 3000 width
    then res_400
    else if leb 2200 width
    then res_300
    else if ltb 300 ydpi
    then superfine
    else if ltb 150 ydpi
    then fine
    else standard

abbrev pub min_scan_ms : List ℕ
min_scan_ms = 20 ∷ 5 ∷ 10 ∷ 0 ∷ 40 ∷ 0 ∷ 0 ∷ 0 ∷ []

-- A row of `xlat`: 0 for standard, 1 for fine, 2 where halving is allowed.
abbrev pub scan_xlat : ℕ → List ℕ
scan_xlat zero = 0 ∷ 1 ∷ 2 ∷ 0 ∷ 4 ∷ 4 ∷ 2 ∷ 7 ∷ []
scan_xlat (suc zero) = 0 ∷ 1 ∷ 2 ∷ 2 ∷ 4 ∷ 0 ∷ 1 ∷ 7 ∷ []
scan_xlat (suc (suc row)) = 2 ∷ 1 ∷ 1 ∷ 1 ∷ 0 ∷ 2 ∷ 1 ∷ 7 ∷ []

abbrev pub scan_row : Res → List ℕ → ℕ
scan_row superfine dis = if test_bit dis 46 then 2 else 1
scan_row res_400 dis = if test_bit dis 46 then 2 else 1
scan_row fine dis = 1
scan_row res_300 dis = 1
scan_row standard dis = 0

-- `min_scan_code`, from the far DIS.
unfoldable pub min_scan_code : Bool → Res → List ℕ → ℕ
min_scan_code true res dis = 7
min_scan_code false res dis =
    let field = if ltb 5 (length dis) then get_or dis 5 0 / 16 % 8 else 0 in
    get_or (scan_xlat (scan_row res dis)) field 0
