-- ===== src/T4/DecodeRows.antt =====
-- The decoding of a row in two dimensions. C's `a0` starts at -1: here `p` is `a0 + 1`.
use nospandsp_fax.Common.{ℕ, zero, suc, ◌+◌, ◌-◌, ◌*◌, ◌/◌, ◌%◌, Bool, false, Option, none, some}
use nospandsp_fax.Common.{List, [], ◌∷◌, get_or, length, replicate, ltb, leb, ◌==◌, ◌&&◌, not}
use nospandsp_fax.Common.{if◌then◌else◌}
use nospandsp_fax.T4.Decode.{read_run, codes_of, set_range}

-- The loop of `find_b`: the first change at `p` or to the right of it to the colour opposite to
-- the current one, an even one in white and an odd one in black. `k` changes are passed.
unfoldable pub find_change : List ℕ → ℕ → ℕ → Bool → ℕ
find_change [] k p black = k
find_change (r ∷ ref) k p black =
    let later = find_change ref (k + 1) p black in
    if leb p r && (k % 2 == (if black then 1 else 0)) then k else later

-- `find_b`: b1 and b2, which are the width past the end of the reference row.
unfoldable pub find_b : List ℕ → ℕ → ℕ → Bool → ℕ × ℕ
unfolding find_change
find_b ref width p black =
    let k = find_change ref 0 p black in (get_or ref k width, get_or ref (k + 1) width)

-- A mode of two-dimensional coding; the vertical ones move b1 to the right or to the left.
pub data Mode : Type 0 where
  vertical_right vertical_left : ℕ → Mode
  horizontal pass : Mode

-- The mode of an `n`-bit code `v`.
unfoldable pub mode_of : ℕ → ℕ → Option Mode
mode_of n v =
    if n == 1 && v == 1
    then some (vertical_right 0)
    else if n == 3 && v == 1
    then some horizontal
    else if n == 4 && v == 1
    then some pass
    else if n == 3 && v == 3
    then some (vertical_right 1)
    else if n == 3 && v == 2
    then some (vertical_left 1)
    else if n == 6 && v == 3
    then some (vertical_right 2)
    else if n == 6 && v == 2
    then some (vertical_left 2)
    else if n == 7 && v == 3
    then some (vertical_right 3)
    else if n == 7 && v == 2
    then some (vertical_left 3)
    else none

-- The loop that reads a mode: at most 7 bits, `left` of them to go.
unfoldable pub read_mode : ℕ → ℕ → ℕ → List ℕ → Option Mode × List ℕ
unfolding mode_of
read_mode zero n v bits = (none, bits)
read_mode (suc left) n v [] = (none, [])
read_mode (suc left) n v (b ∷ bits) =
    let more = read_mode left (n + 1) (v * 2 + b) bits in
    elim (mode_of (n + 1) (v * 2 + b)) [ none ↦ more | some mode ↦ (some mode, bits) ]

-- The pixels from `start` up to `stop` set to black if the colour is.
abbrev pub paint : Bool → List ℕ → ℕ → ℕ → List ℕ
paint black row start stop = if black then set_range row (stop - start) start else row

abbrev pub clamp : ℕ → ℕ → ℕ
clamp width a = if ltb width a then width else a

-- The two runs of horizontal mode; C reads the second even if the first is damaged.
unfoldable pub read_runs : Bool → List ℕ → Option (ℕ × ℕ) × List ℕ
unfolding read_run
read_runs black bits =
    let (r1, bits1) = read_run (codes_of black) (length bits + 1) 0 bits in
    let (r2, bits2) = read_run (codes_of (not black)) (length bits1 + 1) 0 bits1 in
    let both : Option (ℕ × ℕ) = elim r1 [
      | none ↦ none
      | some m ↦ elim r2 [ none ↦ none | some n ↦ some (m, n) ]
    ] in
    (both, bits2)

-- The loop of `decode_2d_row`. A round reads a bit at least, so one more than the bits is enough
-- fuel.
unfoldable pub decode_modes : ℕ → List ℕ → ℕ → List ℕ → ℕ → Bool → List ℕ → Option (List ℕ) × List ℕ
unfolding find_b read_mode read_runs
decode_modes zero ref width row p black bits = (none, bits)
decode_modes (suc fuel) ref width row p black bits =
    let (b1, b2) = find_b ref width p black in
    let start = p - 1 in
    let (got, bits') = read_mode 7 0 0 bits in
    let (runs, bits'') = read_runs black bits' in
    let step : Option (List ℕ) × List ℕ = elim got [
      | none ↦ (none, bits')
      | some pass ↦ decode_modes fuel ref width (paint black row start b2) (b2 + 1) black bits'
      | some (vertical_right d) ↦
          let a1 = clamp width (b1 + d) in
          decode_modes fuel ref width (paint black row start a1) (a1 + 1) (not black) bits'
      | some (vertical_left d) ↦
          let a1 = clamp width (b1 - d) in
          decode_modes fuel ref width (paint black row start a1) (a1 + 1) (not black) bits'
      | some horizontal ↦ elim runs [
        | none ↦ (none, bits'')
        | some (r1, r2) ↦
            let a1 = clamp width (start + r1) in
            let a2 = clamp width (a1 + r2) in
            decode_modes fuel ref width (paint (not black) (paint black row start a1) a1 a2)
              (a2 + 1) black bits''
      ]
    ] in
    if ltb width p then (some row, bits) else step

-- `decode_2d_row` against the reference row: the row, or `none` for -1, and what remains.
unfoldable pub decode_2d_row : List ℕ → ℕ → List ℕ → Option (List ℕ) × List ℕ
unfolding decode_modes
decode_2d_row ref width bits =
    decode_modes (length bits + 1) ref width (replicate ((width + 7) / 8) 0) 0 false bits
