-- ===== src/Sip/Message.antt =====
-- A SIP message written out from its parts, and what sip_util.c should find in it.
use nospandsp_fax.Common.{ℕ, ◌≢◌, Bool, true, false, Option, none, some}
use nospandsp_fax.Common.{List, [], ◌∷◌, ◌++◌, All, ◌==◌, if◌then◌else◌}
use nospandsp_fax.Sip.{lower, fit}

-- A character of a header's name or of a method.
abbrev pub NameChar : ℕ → Type 0
NameChar c = (c ≢ 58) × (c ≢ 32) × (c ≢ 13) × (c ≢ 10)

abbrev pub ValueChar : ℕ → Type 0
ValueChar c = (c ≢ 13) × (c ≢ 10)

abbrev pub IsUnpadded : List ℕ → Type 0
IsUnpadded [] = Unit
IsUnpadded (c ∷ v) = (c ≢ 32) × (c ≢ 9)

pub record Field : Type 0 where
  pub name : List ℕ
  pub value : List ℕ

pub record IsField (h : Field) : Type 0 where
  pub name_ok : All NameChar h.name
  pub value_ok : All ValueChar h.value
  pub unpadded : IsUnpadded h.value

-- The header lines `name: value`, with `rest` behind them.
unfoldable pub fields : List Field → List ℕ → List ℕ
fields [] rest = rest
fields (h ∷ hs) rest = h.name ++ (58 ∷ 32 ∷ (h.value ++ (13 ∷ 10 ∷ fields hs rest)))

-- A first line of a word and more, the headers, an empty line, the body.
unfoldable pub message : List ℕ → List ℕ → List Field → List ℕ → List ℕ
message word more hs body = word ++ (32 ∷ (more ++ (13 ∷ 10 ∷ fields hs (13 ∷ 10 ∷ body))))

-- Names that differ in the case of their letters only.
unfoldable pub same_name : List ℕ → List ℕ → Bool
same_name [] [] = true
same_name [] (y ∷ ys) = false
same_name (x ∷ xs) [] = false
same_name (x ∷ xs) (y ∷ ys) = if lower x == lower y then same_name xs ys else false

-- The value of the first header of a name.
unfoldable pub lookup : List ℕ → List Field → Option (List ℕ)
lookup q [] = none
lookup q (h ∷ hs) = if same_name (h.name) q then some (h.value) else lookup q hs

-- The value in the buffer, or else another search.
unfoldable pub value_or : Option (List ℕ) → ℕ → Option (List ℕ) → Option (List ℕ)
value_or none dstlen rest = rest
value_or (some v) dstlen rest = some (fit v dstlen)

pub names_on_line : (n : List ℕ) → All NameChar n → All (λ c. c ≢ 10) n
names_on_line [] h = tt
names_on_line (x ∷ n) h = (h.0.3, names_on_line n (h.1))

pub values_on_line : (v : List ℕ) → All ValueChar v → All (λ c. c ≢ 10) v
values_on_line [] h = tt
values_on_line (x ∷ v) h = (h.0.1, values_on_line v (h.1))
