-- ===== src/T4/Encode.antt =====
-- The bit layer of the encoder and the coding of a row in one dimension.
use nospandsp_fax.Common.{
  ℕ, zero, suc, ◌+◌, ◌-◌, ◌*◌, ◌/◌, ◌%◌, ◌^◌, Bool, true, false, List, [], ◌∷◌, ◌++◌,
}
use nospandsp_fax.Common.{bit, bit_or, u32, get_or, ltb, leb, ◌==◌, ◌&&◌, not, if◌then◌else◌}
use nospandsp_fax.T4.Tables.{Rte, code, white_codes, black_codes}

-- NF_T4_COMPRESSION_*
pub data Compression : Type 0 where
  one_d two_d t6 : Compression

-- The fields of `struct nf_t4_enc` that the one-dimensional code reads or writes. The output
-- buffer grows as needed; an allocation that fails is not modelled.
pub record Enc : Type 0 where
  pub width : ℕ
  pub comp : Compression
  pub buf : List ℕ
  pub acc : ℕ
  pub nbits : ℕ
  pub row_bits : ℕ
  pub row_is_2d : Bool
  pub rows_to_next_1d : ℕ
  pub max_rows_to_next_1d : ℕ
  pub ref_runs : List ℕ
  pub min_row_bits : ℕ

-- `nf_t4_enc_init`; the reference row starts white.
unfoldable pub enc_init : ℕ → Compression → ℕ → Enc
enc_init width comp k_param =
    let rows = if ltb 0 k_param then k_param else 2 in
    record {
      width = width;
      comp = comp;
      buf = [];
      acc = 0;
      nbits = 0;
      row_bits = 0;
      row_is_2d = elim comp [ t6 ↦ true | _ ↦ false ];
      rows_to_next_1d = rows - 1;
      max_rows_to_next_1d = rows;
      ref_runs = width ∷ [];
      min_row_bits = 0;
    }

-- `nf_t4_enc_set_min_row_bits`
unfoldable pub set_min_row_bits : Enc → ℕ → Enc
set_min_row_bits e bits = record e { min_row_bits = bits }

-- The `while (e->nbits >= 8)` loop of `eput`. Each round takes eight bits off, so `nbits / 8`
-- rounds end it.
unfoldable pub flush_octets : ℕ → Enc → Enc
flush_octets zero e = e
flush_octets (suc left) e =
    flush_octets left
      (record e { buf = e.buf ++ (e.acc % 256 ∷ []); acc = e.acc / 256; nbits = e.nbits - 8 })

-- `eput`
unfoldable pub eput : Enc → ℕ → ℕ → Enc
unfolding flush_octets
eput e bits len =
    let e' : Enc = record e {
      acc = u32 (bit_or e.acc (bits * 2 ^ e.nbits));
      nbits = e.nbits + len;
      row_bits = e.row_bits + len;
    } in
    flush_octets (e'.nbits / 8) e'

abbrev pub no_code : Rte
no_code = code 0 0 0

abbrev pub put_code : Enc → Rte → Enc
put_code e te = eput e te.value te.bits

-- The `while (span >= 2560 + 64)` loop: the longest make-up code. A span has fewer than
-- `span / 2560 + 1` rounds.
unfoldable pub put_long : List Rte → ℕ → Enc → ℕ → Enc × ℕ
put_long tab zero e span = (e, span)
put_long tab (suc left) e span =
    let te = get_or tab 103 no_code in
    let more = put_long tab left (put_code e te) (span - te.run) in
    if leb 2624 span then more else (e, span)

-- `put_1d_span`
unfoldable pub put_1d_span : Enc → ℕ → List Rte → Enc
unfolding put_long
put_1d_span e span tab =
    let (e', rest) = put_long tab (span / 2560) e span in
    let te = get_or tab (63 + rest / 64) no_code in
    let makeup = put_code e' te in
    if leb 64 rest
    then put_code makeup (get_or tab (rest - te.run) no_code)
    else put_code e' (get_or tab rest no_code)

-- The `while (fill > 0)` loop of zeros, 24 at a time.
unfoldable pub put_fill : ℕ → Enc → ℕ → Enc
put_fill zero e fill = e
put_fill (suc left) e fill =
    let n = if ltb 24 fill then 24 else fill in
    let more = put_fill left (eput e 0 n) (fill - n) in if fill == 0 then e else more

-- `encode_eol`
unfoldable pub encode_eol : Enc → Enc
unfolding put_fill
encode_eol e =
    let fill = e.min_row_bits - e.row_bits in
    let e' =
      if ltb 0 e.min_row_bits && (ltb 13 e.row_bits && ltb e.row_bits e.min_row_bits)
      then put_fill fill e fill
      else e in
    let ended : Enc = elim e.comp [
      | two_d ↦ eput e' (0x0800 + (if e.row_is_2d then 0 else 0x1000)) 13
      | _ ↦ eput e' 0x0800 12
    ] in
    record ended { row_bits = 0 }

-- `px_black`: a row is packed, first pixel highest.
abbrev pub px_black : List ℕ → ℕ → ℕ
px_black row i = bit (get_or row (i / 8) 0) (7 - i % 8)

-- The loop of `row_runs`: `left` pixels from `i` on.
unfoldable pub changes : List ℕ → ℕ → ℕ → ℕ → List ℕ
changes row zero i colour = []
changes row (suc left) i colour =
    let same = changes row left (i + 1) colour in
    let other = changes row left (i + 1) (px_black row i) in
    if px_black row i == colour then same else i ∷ other

-- `row_runs`: the pixels at which the colour changes, from white, and the width.
unfoldable pub row_runs : List ℕ → ℕ → List ℕ
unfolding changes
row_runs row width = changes row width 0 0 ++ (width ∷ [])

-- The spans between the changes, alternately white and black; `at` is the last change.
unfoldable pub put_spans : Enc → ℕ → Bool → List ℕ → Enc
put_spans e at black [] = e
put_spans e at black (r ∷ rs) =
    put_spans (put_1d_span e (r - at) (if black then black_codes else white_codes)) r (not black) rs

-- `encode_1d_row`. C then repeats the last entry of `ref_runs` three times, for the search of the
-- two-dimensional coder.
unfoldable pub encode_1d_row : Enc → List ℕ → Enc
unfolding put_spans row_runs
encode_1d_row e row =
    put_spans (record e { ref_runs = row_runs row e.width }) 0 false (row_runs row e.width)

-- `eols` end-of-line codes.
unfoldable pub put_eols : ℕ → Enc → Enc
put_eols zero e = e
put_eols (suc left) e = put_eols left (encode_eol e)

-- `nf_t4_enc_end_page`
unfoldable pub end_page : Enc → Enc
unfolding put_eols
end_page e = elim e.comp [
  | t6 ↦ eput (put_eols 2 e) 0xFF 7
  | _ ↦ eput (put_eols 6 (record e { row_is_2d = false })) 0xFF 7
]
