-- ===== src/T4/Rows.antt =====
-- The coding of a row in two dimensions, and `nf_t4_enc_row`.
-- C ends a list of changes with three copies of the width, so a read past the end is the width.
use nospandsp_fax.Common.{ℕ, zero, suc, ◌+◌, ◌-◌, ◌*◌, ◌/◌, true, false, List, [], ◌∷◌}
use nospandsp_fax.Common.{get_or, length, ltb, leb, ◌==◌, ◌&&◌, ◌||◌, if◌then◌else◌}
use nospandsp_fax.T4.Tables.{Rte, code, white_codes, black_codes}
use nospandsp_fax.T4.Encode.{one_d, two_d, t6, Enc, no_code, put_code, put_1d_span}
use nospandsp_fax.T4.Encode.{px_black, row_runs, encode_eol, encode_1d_row}

-- `code_v`, `code_horiz`, `code_pass`: the vertical codes from VR3 to VL3, horizontal, pass.
unfoldable pub code_v : List Rte
code_v =
    code 7 0x60 0
    ∷ code 6 0x30 0
    ∷ code 3 0x06 0
    ∷ code 1 0x01 0
    ∷ code 3 0x02 0
    ∷ code 6 0x10 0
    ∷ code 7 0x20 0
    ∷ []

abbrev pub code_horiz : Rte
code_horiz = code 3 0x04 0

abbrev pub code_pass : Rte
code_pass = code 4 0x08 0

-- The variables of the loop of `encode_2d_row`.
pub record Scan : Type 0 where
  pub enc : Enc
  pub a0 : ℕ
  pub a1 : ℕ
  pub b1 : ℕ
  pub a_cursor : ℕ
  pub b_cursor : ℕ

-- `for (; b_cursor >= 0; b_cursor -= 2) if (a0 >= ref_runs[b_cursor]) break; b_cursor += 2;`
unfoldable pub search_down : List ℕ → ℕ → ℕ → ℕ → ℕ
search_down ref width a0 zero = if leb (get_or ref 0 width) a0 then 2 else 0
search_down ref width a0 (suc zero) = if leb (get_or ref 1 width) a0 then 3 else 1
search_down ref width a0 (suc (suc b)) =
    let lower = search_down ref width a0 b in
    if leb (get_or ref (b + 2) width) a0 then b + 4 else lower

-- `for (; b_cursor < ref_steps; b_cursor += 2) if (a0 < ref_runs[b_cursor]) break;`, in at most
-- `ref_steps` rounds.
unfoldable pub search_up : ℕ → List ℕ → ℕ → ℕ → ℕ → ℕ
search_up zero ref width a0 b = b
search_up (suc left) ref width a0 b =
    let higher = search_up left ref width a0 (b + 2) in
    if ltb b (length ref) then (if ltb a0 (get_or ref b width) then b else higher) else b

-- The next `b_cursor`: a change of the reference row to the colour opposite to that at `a0`.
unfoldable pub move_b : List ℕ → List ℕ → ℕ → ℕ → ℕ → ℕ
unfolding search_down search_up
move_b row ref width a0 b =
    let c = b / 2 * 2 + px_black row a0 in
    let up = search_up (length ref) ref width a0 c in
    if ltb a0 (get_or ref c width)
    then search_down ref width a0 c
    else if leb (length ref) up
    then length ref - 1
    else up

-- The spans of horizontal mode, in the colours from `a0` on.
unfoldable pub put_horizontal : List ℕ → Enc → ℕ → ℕ → ℕ → Enc
put_horizontal row e a0 a1 a2 =
    let coded = put_code e code_horiz in
    if a0 + a1 == 0 || px_black row a0 == 0
    then put_1d_span (put_1d_span coded (a1 - a0) white_codes) (a2 - a1) black_codes
    else put_1d_span (put_1d_span coded (a1 - a0) black_codes) (a2 - a1) white_codes

-- One code of `encode_2d_row`, and the new `a0`, `a1` and `a_cursor`. C computes `a1` only if the
-- row goes on; it is not read otherwise. `code_v` is indexed by b1 - a1 + 3.
unfoldable pub put_mode : List ℕ → List ℕ → List ℕ → Scan → Scan
unfolding put_horizontal code_v
put_mode row ref cur s =
    let width = s.enc.width in
    let b2 = get_or ref (s.b_cursor + 1) width in
    let a2 = get_or cur (s.a_cursor + 1) width in
    let near = leb s.a1 (s.b1 + 3) && leb s.b1 (s.a1 + 3) in
    let step = if near then 1 else 2 in
    let next = if leb (length cur) (s.a_cursor + step) then length cur - 1 else s.a_cursor + step in
    if leb s.a1 b2
    then record s {
      enc =
          if near
          then put_code s.enc (get_or code_v (s.b1 + 3 - s.a1) no_code)
          else put_horizontal row s.enc s.a0 s.a1 a2;
      a0 = if near then s.a1 else a2;
      a1 = get_or cur next width;
      a_cursor = next;
    }
    else record s { enc = put_code s.enc code_pass; a0 = b2 }

-- The loop of `encode_2d_row`. Every round but the first moves `a0` to the right, so the width and
-- two more are enough fuel.
unfoldable pub put_modes : ℕ → List ℕ → List ℕ → List ℕ → Scan → Scan
unfolding put_mode move_b
put_modes zero row ref cur s = s
put_modes (suc fuel) row ref cur s =
    let s' = put_mode row ref cur s in
    let b = move_b row ref s.enc.width s'.a0 s'.b_cursor in
    let more =
      put_modes fuel row ref cur (record s' { b_cursor = b; b1 = get_or ref b s.enc.width }) in
    if leb s.enc.width s'.a0 then s' else more

-- `encode_2d_row`: the row becomes the reference row.
unfoldable pub encode_2d_row : Enc → List ℕ → Enc
unfolding put_modes
encode_2d_row e row =
    let cur = row_runs row e.width in
    let last = put_modes (e.width + 2) row e.ref_runs cur (record {
      enc = e;
      a0 = 0;
      a1 = get_or cur 0 e.width;
      b1 = get_or e.ref_runs 0 e.width;
      a_cursor = 0;
      b_cursor = 0;
    }) in
    record (last.enc) { ref_runs = cur }

-- `rows_to_next_1d <= 0` starts a new group of rows with one in one dimension.
unfoldable pub next_group : Enc → Enc
next_group e =
    if e.rows_to_next_1d == 0
    then record e { row_is_2d = false; rows_to_next_1d = e.max_rows_to_next_1d - 1 }
    else e

-- `nf_t4_enc_row`
unfoldable pub enc_row : Enc → List ℕ → Enc
unfolding encode_2d_row next_group
enc_row e row =
    let e' = encode_eol e in
    let coded_2d = encode_2d_row e' row in
    let in_2d : Enc = record coded_2d { rows_to_next_1d = coded_2d.rows_to_next_1d - 1 } in
    let in_1d : Enc = record (encode_1d_row e' row) { row_is_2d = true } in
    elim e.comp [
      | t6 ↦ encode_2d_row (record e { row_bits = 0 }) row
      | two_d ↦ next_group (if e'.row_is_2d then in_2d else in_1d)
      | one_d ↦ encode_1d_row e' row
    ]
