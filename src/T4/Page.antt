-- ===== src/T4/Page.antt =====
-- `nf_t4_dec_put`: a whole page. The rows that the handler gets are the list `out` of the state.
-- The whole page is one call, so the state starts from `dec_init`.
use nospandsp_fax.Common.{ℕ, zero, suc, ◌+◌, ◌/◌, Bool, true, false, none, some, List}
use nospandsp_fax.Common.{[], ◌∷◌, ◌++◌, length, replicate, ltb, leb, ◌==◌, ◌&&◌, ◌||◌}
use nospandsp_fax.Common.{if◌then◌else◌}
use nospandsp_fax.T4.Encode.{Compression, one_d, t6, row_runs}
use nospandsp_fax.T4.Decode.{consume_eol_tag, decode_1d_row}
use nospandsp_fax.T4.DecodeRows.{decode_2d_row}

-- `struct nf_t4_dec` without `started_2d`, which nothing reads; `bits` are those after `bitpos`.
pub record Decoder : Type 0 where
  pub width : ℕ
  pub comp : Compression
  pub bits : List ℕ
  pub row : List ℕ
  pub ref : List ℕ
  pub good_row : List ℕ
  pub rows : ℕ
  pub bad_rows : ℕ
  pub ended : Bool
  pub out : List (List ℕ)

-- `nf_t4_dec_init`: an imaginary white row is the first reference.
unfoldable pub dec_init : ℕ → Compression → Decoder
dec_init width comp = record {
  width = width;
  comp = comp;
  bits = [];
  row = [];
  ref = width ∷ [];
  good_row = replicate ((width + 7) / 8) 0;
  rows = 0;
  bad_rows = 0;
  ended = false;
  out = [];
}

-- `emit_row` on the row `r`.
unfoldable pub emit_row : Decoder → List ℕ → Decoder
emit_row d r = record d {
  row = r;
  rows = d.rows + 1;
  ref = row_runs r d.width;
  out = d.out ++ (r ∷ []);
}

-- The results of `nf_t4_dec_put`: 1, 0 and -1.
pub data Verdict : Type 0 where
  page_end runaway damaged : Verdict

abbrev pub max_rows : ℕ
max_rows = 100000

-- The T.6 loop. Each round is a row, so the guard on the rows ends it within `max_rows + 1` rounds.
unfoldable pub put_t6 : ℕ → Decoder → Decoder × Verdict
unfolding emit_row
put_t6 zero d = (d, runaway)
put_t6 (suc fuel) d =
    let (got, bits') = decode_2d_row d.ref d.width d.bits in
    let stopped : Decoder × Verdict = (record d { ended = true }, page_end) in
    let next : Decoder × Verdict = elim got [
      | none ↦ (record d { bits = bits' }, damaged)
      | some r ↦
          let d' = emit_row (record d { bits = bits' }) r in
          let more = put_t6 fuel d' in if ltb max_rows d'.rows then (d', runaway) else more
    ] in
    if ltb (length d.bits) 8 then stopped else elim (consume_eol_tag d.comp d.bits) [
      | none ↦ next
      | some (tag, bits'') ↦ (record d { bits = bits''; ended = true }, page_end)
    ]

-- Up to `left` end-of-line codes: how many there were, the tag of the last, and what remains.
unfoldable pub take_eols : ℕ → Compression → ℕ → Bool → List ℕ → ℕ × Bool × List ℕ
take_eols zero comp count tag bits = (count, tag, bits)
take_eols (suc left) comp count tag bits = elim (consume_eol_tag comp bits) [
  | none ↦ (count, tag, bits)
  | some (found, bits') ↦
      take_eols left comp (count + 1) (elim found [ none ↦ tag | some t ↦ t == 1 ]) bits'
]

-- The search for the next end of line behind a damaged row, and whether the data ended first.
unfoldable pub resync : Compression → List ℕ → Bool × List ℕ
resync comp [] = (true, [])
resync comp (b ∷ bits) =
    let later = resync comp bits in
    if ltb (length bits + 1) 12
    then (true, b ∷ bits)
    else elim (consume_eol_tag comp (b ∷ bits)) [ none ↦ later | some found ↦ (false, b ∷ bits) ]

-- A row of the T.4 loop behind its end-of-line codes: the last good row stands in for a damaged one.
unfoldable pub put_row : Decoder → Bool → Decoder
unfolding emit_row resync
put_row d row_1d =
    let (got, bits') =
      if row_1d then decode_1d_row d.width d.bits else decode_2d_row d.ref d.width d.bits in
    let (finished, bits'') = resync d.comp bits' in
    let concealed = emit_row d d.good_row in
    elim got [
      | none ↦ record concealed { bits = bits''; bad_rows = d.bad_rows + 1; ended = finished }
      | some r ↦ emit_row (record d { bits = bits'; good_row = r }) r
    ]

-- The T.4 loop. A round takes a bit or adds a good row, so the bits and `max_rows` and two more
-- are enough fuel. C tests the number of rows behind a good row only.
unfoldable pub put_t4 : ℕ → Decoder → Decoder × Verdict
unfolding put_row take_eols
put_t4 zero d = (d, runaway)
put_t4 (suc fuel) d =
    let (count, tag, bits') = take_eols 6 d.comp 0 false d.bits in
    let behind : Decoder = record d { bits = bits' } in
    let only_1d : Bool = elim d.comp [ one_d ↦ true | _ ↦ false ] in
    let d' = put_row behind (only_1d || (tag || (d.rows == 0 && count == 0))) in
    let more = put_t4 fuel d' in
    if leb 6 count || ltb (length bits') 8
    then (record behind { ended = true }, page_end)
    else if d'.ended
    then (d', page_end)
    else if d'.bad_rows == d.bad_rows && ltb max_rows d'.rows
    then (d', runaway)
    else more

-- `nf_t4_dec_put` on the bits of the data.
unfoldable pub dec_put : Decoder → List ℕ → Decoder × Verdict
unfolding put_t6 put_t4
dec_put d bits =
    let d' : Decoder = record d { bits = bits } in
    elim d.comp [ t6 ↦ put_t6 (max_rows + 2) d' | _ ↦ put_t4 (length bits + max_rows + 2) d' ]
