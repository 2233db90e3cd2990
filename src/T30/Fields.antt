-- ===== src/T30/Fields.antt =====
-- The information fields of nf_t30.c: the capabilities of a DIS, the choice of a DCS, and the
-- identifier of the far station.
use nospandsp_fax.Common.{ℕ, zero, suc, ◌+◌, ◌-◌, ◌%◌, Bool, true, false}
use nospandsp_fax.Common.{Option, none, some, List, [], ◌∷◌, reverse, take, drop}
use nospandsp_fax.Common.{replicate, get_or, set, ◌==◌, ltb, bit, bit_or, ◌&&◌, ◌||◌}
use nospandsp_fax.Common.{if◌then◌else◌}
use nospandsp_fax.T4.Encode.{Compression, one_d, two_d, t6}
use nospandsp_fax.T30.Fcf
use nospandsp_fax.T30.Tables.{
  Modem, v17, v29, v27ter, v34, set_bit, set_bits, test_bit, dis_modem_bits, fb, fb_v27_start,
  scan_dcs, fb_table, Res, standard, fine, superfine, res_300, res_400, res_dis_bit, res_to_dpi,
  res_width, min_scan_code, addr, ctl_final, t30_info_off,
}
use nospandsp_fax.T30.State.{T30, Kind, bilevel, color, gray, file, Negotiated, with_x}

abbrev pub clear_ext : ℕ → ℕ
clear_ext x = x % 128

-- The first loop of `trim_and_set_ext_bits`: from octet `i` down to octet 6, the index of the last
-- octet that is not zero, 5 if there is none.
unfoldable pub last_used : List ℕ → ℕ → ℕ
last_used f zero = 5
last_used f (suc more) =
    let lower = last_used f more in
    if clear_ext (get_or f (6 + more) 0) == 0 then lower else 6 + more

-- The second loop: the extension bit on octets 5 up to the one before the last.
unfoldable pub extend : ℕ → List ℕ → List ℕ
extend zero f = f
extend (suc more) f = let i = 5 + more in extend more (set f i (bit_or (get_or f i 0) 0x80))

-- `trim_and_set_ext_bits`, with the frame cut to the length it returns.
unfoldable pub trim_and_set_ext_bits : List ℕ → List ℕ
unfolding last_used extend
trim_and_set_ext_bits f =
    let i = last_used f 13 in take (i + 1) (extend (i - 5) (set f i (clear_ext (get_or f i 0))))

abbrev pub blank_frame : ℕ → List ℕ
blank_frame fcf = addr ∷ ctl_final ∷ fcf ∷ replicate 21 0

abbrev pub set_if : Bool → ℕ → List ℕ → List ℕ
set_if b n f = if b then set_bit f n else f

-- `build_dis`; the two environment variables that withhold JPEG are left unset.
unfoldable pub build_dis : (Modem → Bool) → T30 → List ℕ
unfolding trim_and_set_ext_bits
build_dis allowed s =
    let c = s.config in
    let f1 = set_bit (blank_frame (with_x s.dis_received Fcf.dis)) 10 in
    let f2 = set_if c.poll_serve 9 (set_if s.v34 6 f1) in
    let f3 = set_if (allowed v27ter) 12 (set_if (allowed v29) 11 f2) in
    let f4 = if allowed v17 then set f3 4 (bit_or (get_or f3 4 0) 0x2C) else f3 in
    let f5 = set_bit (set_if (bit c.supported_res 1 == 1) 15 f4) 16 in
    let f6 = set_bits f5 7 21 in
    let f7 = set_if s.want_ecm 31 (set_if s.want_ecm 27 f6) in
    let f8 = set_if (bit c.supported_res 3 == 1) 42 (set_if (bit c.supported_res 2 == 1) 41 f7) in
    let f9 = set_bit (set_if (bit c.supported_res 4 == 1) 43 f8) 45 in
    let jpeg = s.want_ecm && c.color_capable in
    let f10 = set_if jpeg 69 (set_if jpeg 68 (set_if jpeg 15 f9)) in
    trim_and_set_ext_bits (set_if (s.want_ecm && c.file_capable) 53 f10)

abbrev pub is_2d : Compression → Bool
is_2d two_d = true
is_2d one_d = false
is_2d t6 = false

abbrev pub is_t6 : Compression → Bool
is_t6 t6 = true
is_t6 one_d = false
is_t6 two_d = false

-- The bits of a DCS for a kind of document.
abbrev pub kind_bits : Kind → Compression → Bool → Res → List ℕ → List ℕ
kind_bits color encoding ecm res f = set_bit (set_bit (set_bit (set_bit f 15) 27) 68) 69
kind_bits gray encoding ecm res f = set_bit (set_bit (set_bit f 15) 27) 68
kind_bits file encoding ecm res f = set_bit (set_bit f 27) 53
kind_bits bilevel encoding ecm res f =
    let f1 = set_if (is_2d encoding) 16 f in
    let f2 = set_if (ecm && is_t6 encoding) 31 (set_if ecm 27 f1) in
    let b = res_dis_bit res in set_if (ltb 0 b) b f2

-- The frame of a DCS: its code, whether the call is one over V.34, the code of the scan line time,
-- the row of the fallback table and the document.
unfoldable pub dcs_frame : ℕ → Bool → ℕ → ℕ → Kind → Compression → Bool → Res → List ℕ
unfolding trim_and_set_ext_bits
dcs_frame fcf annex_f scan fallback kind encoding ecm res =
    let f1 = blank_frame fcf in
    let f2 = if annex_f then f1 else set f1 4 (bit_or (get_or f1 4 0) (fb fallback).dcs) in
    let f3 = set_bit (set_bits f2 scan 21) 10 in
    trim_and_set_ext_bits (kind_bits kind encoding ecm res f3)

-- `build_dcs`
unfoldable pub build_dcs : T30 → List ℕ
unfolding dcs_frame min_scan_code
build_dcs s =
    let n = s.neg in
    dcs_frame (with_x s.dis_received Fcf.dcs) s.v34 (min_scan_code n.ecm n.nf_res s.far_dis)
      n.fallback n.kind n.encoding n.ecm n.nf_res

-- The kind, the coding and the resolution that the bits of a frame stand for.
abbrev pub kind_of : Bool → List ℕ → Kind
kind_of ecm f =
    if ecm && (test_bit f 68 && test_bit f 69)
    then color
    else if ecm && test_bit f 68
    then gray
    else if ecm && test_bit f 53
    then file
    else bilevel

abbrev pub encoding_of : Bool → List ℕ → Compression
encoding_of ecm f = if ecm && test_bit f 31 then t6 else if test_bit f 16 then two_d else one_d

abbrev pub res_of : List ℕ → Res
res_of f =
    if test_bit f 43
    then res_400
    else if test_bit f 42
    then res_300
    else if test_bit f 41
    then superfine
    else if test_bit f 15
    then fine
    else standard

abbrev pub or_default : Option ℕ → ℕ
or_default none = fb_v27_start + 1
or_default (some i) = i

-- What `parse_dcs` takes from the frame `f`, cut to 24 octets.
unfoldable pub dcs_choice : Bool → List ℕ → Negotiated
unfolding scan_dcs
dcs_choice annex_f f =
    let i = or_default (scan_dcs (dis_modem_bits (get_or f 4 0)) fb_table 0) in
    let ecm = annex_f || test_bit f 27 in
    let res = res_of f in
    record {
      fallback = i;
      modem = if annex_f then v34 else (fb i).modem;
      bit_rate = if annex_f then 24000 else (fb i).rate;
      encoding = encoding_of ecm f;
      x_res = (res_to_dpi res).0;
      y_res = (res_to_dpi res).1;
      image_width = res_width res;
      nf_res = res;
      kind = kind_of ecm f;
      ecm = ecm;
    }

-- `parse_dcs`; the far DIS gives way to the DCS.
unfoldable pub parse_dcs : T30 → List ℕ → T30
unfolding dcs_choice
parse_dcs s msg =
    let f = take 24 msg in
    let n = dcs_choice s.v34 f in
    record s { far_dis = f; neg = n; stats = record (s.stats) { stat_rate = n.bit_rate } }

-- The spaces in front of a list.
unfoldable pub skip_spaces : List ℕ → List ℕ
skip_spaces [] = []
skip_spaces (x ∷ xs) = let rest = skip_spaces xs in if x == 32 then rest else x ∷ xs

-- `capture_far_ident`: the 20 octets at most of the field without the spaces on either side,
-- backwards.
unfoldable pub capture_far_ident : T30 → List ℕ → T30
unfolding skip_spaces
capture_far_ident s msg =
    let field = take 20 (drop t30_info_off msg) in
    record s { far_ident = skip_spaces (reverse (skip_spaces field)) }
