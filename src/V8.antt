-- ===== src/V8.antt =====
-- nf_v8.c: the octets of the CI, CM and JM messages, their coding and their parsing. The tones and
-- the FSK signal that carry them are floating point.
-- A set of modulations is C's mask; `v17` to `v90` are the bit numbers of the NF_V8_MOD_* masks.
use nospandsp_fax.Common.{ℕ, zero, suc, ◌*◌, ◌/◌, ◌^◌, Bool}
use nospandsp_fax.Common.{List, [], ◌∷◌, bit, bit_and, bit_or, low_bits, u8, ◌==◌, ◌||◌}
use nospandsp_fax.Common.{if◌then◌else◌, Option, none, some, length}

abbrev pub v17 : ℕ
v17 = 0

abbrev pub v21 : ℕ
v21 = 1

abbrev pub v22 : ℕ
v22 = 2

abbrev pub v23_hdx : ℕ
v23_hdx = 3

abbrev pub v23 : ℕ
v23 = 4

abbrev pub v26bis : ℕ
v26bis = 5

abbrev pub v26ter : ℕ
v26ter = 6

abbrev pub v27ter : ℕ
v27ter = 7

abbrev pub v29 : ℕ
v29 = 8

abbrev pub v32 : ℕ
v32 = 9

abbrev pub v34_hdx : ℕ
v34_hdx = 10

abbrev pub v34 : ℕ
v34 = 11

abbrev pub v90 : ℕ
v90 = 12

-- `if (mod & (1 << k)) o |= value;`
unfoldable pub mark : ℕ → ℕ → ℕ → ℕ → ℕ
mark mods k value o = if bit mods k == 0 then o else bit_or o value

-- `build_modulation_octets`
unfoldable pub build_modulation_octets : ℕ → List ℕ
unfolding mark
build_modulation_octets mods =
    let o0 = mark mods v90 0x20 (mark mods v34 0x40 (mark mods v34_hdx 0x80 0x05)) in
    let o1 =
      mark mods v32 0x01
        (mark mods v22 0x02 (mark mods v17 0x04 (mark mods v29 0x40 (mark mods v27ter 0x80 0)))) in
    let o2 = mark mods v26ter 0x01 (
      mark mods v26bis 0x02 (mark mods v23 0x04 (mark mods v23_hdx 0x40 (mark mods v21 0x80 0)))) in
    let need2 =
      bit mods v21 == 1
      || (bit mods v23_hdx == 1
          || (bit mods v23 == 1 || (bit mods v26bis == 1 || bit mods v26ter == 1))) in
    let need1 =
      need2
      || (bit mods v27ter == 1
          || (bit mods v29 == 1
              || (bit mods v17 == 1 || (bit mods v22 == 1 || bit mods v32 == 1)))) in
    if need2
    then o0 ∷ bit_or o1 0x10 ∷ bit_or o2 0x10 ∷ []
    else if need1
    then o0 ∷ bit_or o1 0x10 ∷ []
    else o0 ∷ []

-- `if (p & (1 << b)) *mod |= 1 << k;`
unfoldable pub note_mode : ℕ → ℕ → ℕ → ℕ → ℕ
note_mode p b k mods = if bit p b == 0 then mods else bit_or mods (2 ^ k)

-- `(d[i] & 0x38) == 0x10`
abbrev pub is_extension : ℕ → Bool
is_extension d = bit_and d 0x38 == 0x10

-- The second extension octet of `parse_modulation`.
unfoldable pub parse_third : ℕ → List ℕ → ℕ × List ℕ
unfolding note_mode
parse_third mods [] = (mods, [])
parse_third mods (p ∷ d) =
    if is_extension p
    then (
      note_mode p 0 v26ter (
          note_mode p 1 v26bis
            (note_mode p 2 v23 (note_mode p 6 v23_hdx (note_mode p 7 v21 mods)))),
      d,
    )
    else (mods, p ∷ d)

-- The first extension octet.
unfoldable pub parse_second : ℕ → List ℕ → ℕ × List ℕ
unfolding note_mode parse_third
parse_second mods [] = (mods, [])
parse_second mods (p ∷ d) =
    if is_extension p
    then parse_third
        (note_mode p 0 v32
          (note_mode p 1 v22 (note_mode p 2 v17 (note_mode p 6 v29 (note_mode p 7 v27ter mods)))))
        d
    else (mods, p ∷ d)

-- `parse_modulation`: the modulations with those of the octets added, and what remains.
unfoldable pub parse_modulation : ℕ → List ℕ → ℕ × List ℕ
unfolding note_mode parse_second
parse_modulation mods [] = (mods, [])
parse_modulation mods (p ∷ d) =
    parse_second (note_mode p 5 v90 (note_mode p 6 v34 (note_mode p 7 v34_hdx mods))) d

-- `while (i < len && (d[i] & 0x38) == 0x10) i++;`
unfoldable pub skip_extensions : List ℕ → List ℕ
skip_extensions [] = []
skip_extensions (x ∷ d) = if is_extension x then skip_extensions d else x ∷ d

-- The loop of `parse_message`. A round takes an octet at least, so their number is enough fuel.
-- The call function is `none` for C's -1.
unfoldable pub parse_octets : ℕ → Option ℕ → ℕ → List ℕ → Option ℕ × ℕ
unfolding parse_modulation skip_extensions
parse_octets zero call mods d = (call, mods)
parse_octets (suc fuel) call mods [] = (call, mods)
parse_octets (suc fuel) call mods (x ∷ d) =
    let (mods', d') = parse_modulation mods (x ∷ d) in
    let with_call = parse_octets fuel (some (low_bits (x / 2 ^ 5) 3)) mods (skip_extensions d) in
    let with_modes = parse_octets fuel call mods' (skip_extensions d') in
    let skipped = parse_octets fuel call mods (skip_extensions d) in
    if x == 0
    then (call, mods)
    else if low_bits x 5 == 0x01
    then with_call
    else if low_bits x 5 == 0x05
    then with_modes
    else skipped

-- `parse_message`
unfoldable pub parse_message : List ℕ → Option ℕ × ℕ
unfolding parse_octets
parse_message d = parse_octets (length d) none 0 d

-- The call-function octet of `arm_ci`, `arm_cm` and `arm_jm`.
unfoldable pub call_octet : ℕ → ℕ
call_octet call = u8 (bit_or (bit_or 0x80 (low_bits call 3 * 2 ^ 5)) 0x01)

-- The octets of a CM (`arm_cm`) and of a JM (`arm_jm`).
unfoldable pub message : ℕ → ℕ → List ℕ
unfolding call_octet build_modulation_octets
message call mods = call_octet call ∷ build_modulation_octets mods
