-- ===== src/T4/Decode.antt =====
-- The bit layer of the decoder and the decoding of a row in one dimension. The cursor into the
-- data is the list of the bits that remain, lowest bit of each octet first.
use nospandsp_fax.Common.{
  ℕ, zero, suc, ◌+◌, ◌-◌, ◌*◌, ◌/◌, ◌%◌, ◌^◌, Bool, false, Option, none, some,
}
use nospandsp_fax.Common.{List, [], ◌∷◌, bit_or, u8, set, get_or, replicate, ltb, leb, ◌==◌, ◌&&◌}
use nospandsp_fax.Common.{not, if◌then◌else◌, length}
use nospandsp_fax.T4.Tables.{Rte, white_codes, black_codes}
use nospandsp_fax.T4.Encode.{Compression, two_d}

-- The code of a table entry as it is read, first bit highest.
unfoldable pub canonical : ℕ → ℕ → ℕ → ℕ
canonical zero canon value = canon
canonical (suc left) canon value = canonical left (canon * 2 + value % 2) (value / 2)

-- The search of `read_code` through the table, for a code of `n` bits with value `v`.
unfoldable pub find_run : List Rte → ℕ → ℕ → Option ℕ
unfolding canonical
find_run [] n v = none
find_run (te ∷ tab) n v =
    if te.bits == n && canonical n 0 te.value == v then some te.run else find_run tab n v

-- `read_code`: at most 14 bits, `left` of them to go; `none` is -1. The cursor is returned with
-- the result, since a failure leaves it where it stopped.
unfoldable pub read_code : List Rte → ℕ → ℕ → ℕ → List ℕ → Option ℕ × List ℕ
unfolding find_run
read_code tab zero n v bits = (none, bits)
read_code tab (suc left) n v [] = (none, [])
read_code tab (suc left) n v (b ∷ bits) =
    let more = read_code tab left (n + 1) (v * 2 + b) bits in
    elim (find_run tab (n + 1) (v * 2 + b)) [ none ↦ more | some run ↦ (some run, bits) ]

-- `read_run`: make-up codes and a terminating code, saturated at 1 << 20. Every code takes a bit,
-- so the number of bits and one more is enough fuel.
unfoldable pub read_run : List Rte → ℕ → ℕ → List ℕ → Option ℕ × List ℕ
unfolding read_code
read_run tab zero total bits = (none, bits)
read_run tab (suc fuel) total bits =
    let (got, bits') = read_code tab 14 0 0 bits in
    elim got [
      | none ↦ (none, bits')
      | some r ↦
          let sum = if ltb (2 ^ 20) (total + r) then 2 ^ 20 else total + r in
          let more = read_run tab fuel sum bits' in if leb 64 r then more else (some sum, bits')
    ]

abbrev pub codes_of : Bool → List Rte
codes_of black = if black then black_codes else white_codes

-- `consume_eol_tag` from a cursor with `zeros` zero bits behind it: 11 zeros at least, a one, and
-- in two-dimensional coding the tag bit (absent at the end of the data, which reads as 0).
-- `none` leaves the cursor where it was.
unfoldable pub eol_tail : Compression → ℕ → List ℕ → Option (Option ℕ × List ℕ)
eol_tail comp seen [] = none
eol_tail comp seen (b ∷ bits) =
    let more = eol_tail comp (seen + 1) bits in
    let tagged : Option (Option ℕ × List ℕ) = elim comp [
      | two_d ↦ elim bits [ [] ↦ some (some 0, []) | t ∷ rest ↦ some (some t, rest) ]
      | _ ↦ some (none, bits)
    ] in
    if b == 0 then more else if leb 11 seen then tagged else none

unfoldable pub consume_eol_tag : Compression → List ℕ → Option (Option ℕ × List ℕ)
unfolding eol_tail
consume_eol_tag comp bits = eol_tail comp 0 bits

-- `set_black` and `set_range` on a packed row: `left` pixels from `i` on.
abbrev pub set_black : List ℕ → ℕ → List ℕ
set_black row i = set row (i / 8) (u8 (bit_or (get_or row (i / 8) 0) (2 ^ (7 - i % 8))))

unfoldable pub set_range : List ℕ → ℕ → ℕ → List ℕ
set_range row zero i = row
set_range row (suc left) i = set_range (set_black row i) left (i + 1)

-- The loop of `decode_1d_row`; `none` is -1. A zero run changes the colour only, so the rounds are
-- bounded by the bits, each round taking one at least.
unfoldable pub decode_spans : ℕ → ℕ → List ℕ → ℕ → Bool → List ℕ → Option (List ℕ) × List ℕ
unfolding read_run set_range
decode_spans zero width row a black bits = (none, bits)
decode_spans (suc fuel) width row a black bits =
    let (got, bits') = read_run (codes_of black) (length bits + 1) 0 bits in
    let step : Option (List ℕ) × List ℕ = elim got [
      | none ↦ (none, bits')
      | some r ↦
          let run = if ltb width (a + r) then width - a else r in
          decode_spans fuel width (if black then set_range row run a else row) (a + run) (not black)
            bits'
    ] in
    if leb width a then (some row, bits) else step

-- `decode_1d_row`: the row, or `none` for -1, and what remains.
unfoldable pub decode_1d_row : ℕ → List ℕ → Option (List ℕ) × List ℕ
unfolding decode_spans
decode_1d_row width bits =
    decode_spans (length bits + 1) width (replicate ((width + 7) / 8) 0) 0 false bits
