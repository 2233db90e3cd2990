-- ===== src/T30/Rates.antt =====
-- The fallback table of nf_t30.c: which row `next_allowed_fb` takes, and the speed octet of a CTC.
use nospandsp_fax.Common.{
  ℕ, zero, suc, ◌+◌, ◌≤◌, ◌<◌, ◌≡◌, refl, ap, sym, ◌∙◌, arith, ◌-◌, Bool, true, false,
}
use nospandsp_fax.Common.{Option, none, some, List, [], ◌∷◌, length, get_or, inl, inr, Bool-cases}
use nospandsp_fax.T30.Tables.{
  Modem, Fallback, fb, fb_row, fb_table, v27ter, scan_allowed, rows_from, next_allowed_fb,
  fb_from_dcs_byte, scan_dcs,
}

-- Of the rows from `i` on, row `j` is the first allowed one.
abbrev pub FirstAllowed : (Modem → Bool) → ℕ → ℕ → Type 0
FirstAllowed allowed i j =
    (i ≤ j)
    × (j < 8)
    × (allowed (fb j).modem ≡ true)
    × ((k : ℕ) → i ≤ k → k < j → allowed (fb k).modem ≡ false)

abbrev pub IsFirstAllowed : (Modem → Bool) → ℕ → Option ℕ → Type 0
IsFirstAllowed allowed i none = (k : ℕ) → i ≤ k → k < 8 → allowed (fb k).modem ≡ false
IsFirstAllowed allowed i (some j) = FirstAllowed allowed i j

abbrev default_row : Fallback
default_row = fb_row 2400 v27ter 0

module _ (allowed : Modem → Bool) where
  -- The same of any list of rows that starts at row `i`.
  abbrev FirstOf : List Fallback → ℕ → Option ℕ → Type 0
  FirstOf rows i none =
      (k : ℕ) → k < length rows → allowed (get_or rows k default_row).modem ≡ false
  FirstOf rows i (some j) =
      (r : ℕ) × (j ≡ i + r)
      × (r < length rows)
      × (allowed (get_or rows r default_row).modem ≡ true)
      × ((k : ℕ) → k < r → allowed (get_or rows k default_row).modem ≡ false)

  -- One more row in front, which is not allowed.
  FirstOf-cons :
      (row : Fallback) (rows : List Fallback) (i : ℕ) (found : Option ℕ)
      → allowed row.modem ≡ false
      → FirstOf rows (suc i) found
      → FirstOf (row ∷ rows) i found
  FirstOf-cons row rows i none barred rest = λ k lt. at_row k lt
    where
      at_row :
          (k : ℕ)
          → k < suc (length rows)
          → allowed (get_or (row ∷ rows) k default_row).modem ≡ false
      at_row zero lt = barred
      at_row (suc k) lt = rest k (omega arith)
  FirstOf-cons row rows i (some j) barred (r, place, lt, free, before) =
      (suc r, omega arith, omega arith, free, at_row)
    where
      at_row : (k : ℕ) → k < suc r → allowed (get_or (row ∷ rows) k default_row).modem ≡ false
      at_row zero lt = barred
      at_row (suc k) lt = before k (omega arith)

  scan_allowed_lem : (rows : List Fallback) (i : ℕ) → FirstOf rows i (scan_allowed allowed rows i)
  unfolding scan_allowed
  scan_allowed_lem [] i = λ k lt. absurd (omega arith)
  scan_allowed_lem (row ∷ rows) i = elim (Bool-cases (allowed row.modem)) [
    | inl free ↦ rw free (zero, omega arith, omega arith, free, λ k lt. absurd (omega arith))
    | inr barred ↦ rw barred (FirstOf-cons row rows i _ barred (scan_allowed_lem rows (suc i)))
  ]

length-rows_from : (rows : List Fallback) (i : ℕ) → length (rows_from rows i) ≡ length rows - i
length-rows_from rows zero = omega arith
length-rows_from [] (suc i) = omega arith
length-rows_from (row ∷ rows) (suc i) = omega (arith, length-rows_from rows i)

get_or-rows_from :
    (rows : List Fallback) (i r j : ℕ) (d : Fallback)
    → j ≡ i + r
    → get_or (rows_from rows i) r d ≡ get_or rows j d
get_or-rows_from rows zero r j d place = let same : j ≡ r = omega arith in rw same refl
get_or-rows_from [] (suc i) r j d place = refl
get_or-rows_from (row ∷ rows) (suc i) r zero d place = absurd (omega arith)
get_or-rows_from (row ∷ rows) (suc i) r (suc j) d place =
    get_or-rows_from rows i r j d (omega arith)

-- Whether a row is allowed, counted from row `i` on and counted from the top of the table.
allowed_from :
    (allowed : Modem → Bool) (i r j : ℕ) (b : Bool)
    → j ≡ i + r
    → allowed (get_or (rows_from fb_table i) r default_row).modem ≡ b
    → allowed (fb j).modem ≡ b
allowed_from allowed i r j b place h =
    ap (λ (row : Fallback). allowed row.modem)
      (sym (get_or-rows_from fb_table i r j default_row place))
    ∙ h

found_in_table :
    (allowed : Modem → Bool) (i : ℕ) (found : Option ℕ)
    → FirstOf allowed (rows_from fb_table i) i found
    → IsFirstAllowed allowed i found
found_in_table allowed i none h = λ k from lt.
    allowed_from allowed i (k - i) k false (omega arith)
      (h (k - i) (omega (arith, length-rows_from fb_table i)))
found_in_table allowed i (some j) (r, place, lt, free, before) = (
  omega arith,
  omega (arith, length-rows_from fb_table i),
  allowed_from allowed i r j true place free,
  λ k from below.
      allowed_from allowed i (k - i) k false (omega arith) (before (k - i) (omega arith)),
)

-- The next row to try is the first from row `i` on whose modem is allowed, and there is none only
-- if no row from there on has an allowed modem.
pub next_allowed_fb-IsFirstAllowed :
    (allowed : Modem → Bool) (i : ℕ) → IsFirstAllowed allowed i (next_allowed_fb allowed i)
unfolding next_allowed_fb
next_allowed_fb-IsFirstAllowed allowed i =
    found_in_table allowed i _ (scan_allowed_lem allowed (rows_from fb_table i) i)

-- The speed octet of a row is read back as that row.
pub fb_from_dcs_byte-fb : (i : ℕ) → i < 8 → fb_from_dcs_byte (fb i).dcs ≡ some i
unfolding fb_from_dcs_byte scan_dcs
fb_from_dcs_byte-fb zero lt = refl
fb_from_dcs_byte-fb (suc zero) lt = refl
fb_from_dcs_byte-fb (suc (suc zero)) lt = refl
fb_from_dcs_byte-fb (suc (suc (suc zero))) lt = refl
fb_from_dcs_byte-fb (suc (suc (suc (suc zero)))) lt = refl
fb_from_dcs_byte-fb (suc (suc (suc (suc (suc zero))))) lt = refl
fb_from_dcs_byte-fb (suc (suc (suc (suc (suc (suc zero)))))) lt = refl
fb_from_dcs_byte-fb (suc (suc (suc (suc (suc (suc (suc zero))))))) lt = refl
fb_from_dcs_byte-fb (suc (suc (suc (suc (suc (suc (suc (suc i)))))))) lt = absurd (omega arith)
