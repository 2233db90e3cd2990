-- ===== src/Sip/Lookup.antt =====
-- The header lookup of sip_util.c on a SIP message written out from its parts.
use nospandsp_fax.Common.{ℕ, zero, suc, ◌≤◌, ◌<◌, ◌≡◌, ◌≢◌, refl, ap, ◌∙◌, arith}
use nospandsp_fax.Common.{Bool, true, false, Option, none, some}
use nospandsp_fax.Common.{List, [], ◌∷◌, ◌++◌, length, All, if◌then◌else◌}
use nospandsp_fax.Common.{length-append}
use nospandsp_fax.Sip.{
  lower, after_name, skip_blanks, until_eol, next_line, fit, found, hdr_loop, sip_hdr,
}
use nospandsp_fax.Sip.Message.{
  NameChar, ValueChar, IsUnpadded, Field, IsField, fields, message, same_name, lookup, value_or,
  names_on_line, values_on_line,
}

after_name-colon :
    (n q rest : List ℕ)
    → All NameChar n
    → All NameChar q
    → after_name q (n ++ (58 ∷ rest)) ≡ (if same_name n q then some rest else none)
unfolding after_name lower same_name
after_name-colon [] [] rest hn hq = refl
after_name-colon [] (y ∷ q) rest hn hq = ground arith
after_name-colon (x ∷ n) [] rest hn hq = ground arith
after_name-colon (x ∷ n) (y ∷ q) rest hn hq =
    let rec = after_name-colon n q rest (hn.1) (hq.1) in ground arith

after_name-space :
    (n q rest : List ℕ) → All NameChar n → All NameChar q → after_name q (n ++ (32 ∷ rest)) ≡ none
unfolding after_name lower
after_name-space [] [] rest hn hq = refl
after_name-space [] (y ∷ q) rest hn hq = ground arith
after_name-space (x ∷ n) [] rest hn hq = ground arith
after_name-space (x ∷ n) (y ∷ q) rest hn hq =
    let rec = after_name-space n q rest (hn.1) (hq.1) in ground arith

next_line-append : (xs ys : List ℕ) → All (λ c. c ≢ 10) xs → next_line (xs ++ ys) ≡ next_line ys
unfolding next_line
next_line-append [] ys h = refl
next_line-append (x ∷ xs) ys h = let rec = next_line-append xs ys (h.1) in ground arith

length-next_line : (c : ℕ) (p : List ℕ) → length (next_line (c ∷ p)) ≤ length p
unfolding next_line
length-next_line c [] = ground arith
length-next_line c (d ∷ p) = let rec = length-next_line d p in ground arith

until_eol-append : (v rest : List ℕ) → All ValueChar v → until_eol (v ++ (13 ∷ rest)) ≡ v
unfolding until_eol
until_eol-append [] rest h = refl
until_eol-append (x ∷ v) rest h = let rec = until_eol-append v rest (h.1) in ground arith

skip_blanks-append :
    (v rest : List ℕ) → IsUnpadded v → skip_blanks (v ++ (13 ∷ rest)) ≡ v ++ (13 ∷ rest)
unfolding skip_blanks
skip_blanks-append [] rest h = refl
skip_blanks-append (x ∷ v) rest h = ground arith

-- More fuel than the characters left changes nothing.
hdr_loop_fuel :
    (n k : ℕ) (msg q : List ℕ) (d : ℕ)
    → length msg ≤ n
    → length msg ≤ k
    → hdr_loop n msg q d ≡ hdr_loop k msg q d
unfolding hdr_loop
hdr_loop_fuel zero zero msg q d hn hk = refl
hdr_loop_fuel zero (suc k) [] q d hn hk = refl
hdr_loop_fuel zero (suc k) (c ∷ p) q d hn hk = absurd (omega arith)
hdr_loop_fuel (suc n) zero [] q d hn hk = refl
hdr_loop_fuel (suc n) zero (c ∷ p) q d hn hk = absurd (omega arith)
hdr_loop_fuel (suc n) (suc k) [] q d hn hk = refl
hdr_loop_fuel (suc n) (suc k) (c ∷ p) q d hn hk =
    let le = length-next_line c p in
    ap (found (after_name q (c ∷ p)) d)
      (hdr_loop_fuel n k (next_line (c ∷ p)) q d (omega arith) (omega arith))

-- A round on a line that is not empty goes on with the whole search in the next line.
sip_hdr_round :
    (msg q : List ℕ) (d : ℕ)
    → 0 < length msg
    → sip_hdr msg q d ≡ found (after_name q msg) d (sip_hdr (next_line msg) q d)
unfolding hdr_loop sip_hdr
sip_hdr_round [] q d h = absurd (omega arith)
sip_hdr_round (c ∷ p) q d h =
    let le = length-next_line c p in
    ap (found (after_name q (c ∷ p)) d) (
      hdr_loop_fuel (length p) (length (next_line (c ∷ p))) (next_line (c ∷ p)) q d le
        (omega arith))

next_line-field :
    (h : Field) (rest : List ℕ)
    → IsField h
    → next_line (h.name ++ (58 ∷ 32 ∷ (h.value ++ (13 ∷ 10 ∷ rest)))) ≡ rest
unfolding next_line
next_line-field h rest ok =
    next_line-append (h.name) (58 ∷ 32 ∷ (h.value ++ (13 ∷ 10 ∷ rest)))
      (names_on_line (h.name) (ok.name_ok))
    ∙ next_line-append (h.value) (13 ∷ 10 ∷ rest) (values_on_line (h.value) (ok.value_ok))

found_if :
    (b : Bool) (v rest : List ℕ) (d : ℕ) (other : Option (List ℕ))
    → All ValueChar v
    → IsUnpadded v
    → found (if b then some (32 ∷ (v ++ (13 ∷ rest))) else none) d other
      ≡ (if b then some (fit v d) else other)
unfolding found skip_blanks
found_if true v rest d other hv hu =
    ap (λ (w : List ℕ). some (fit w d))
      (ap until_eol (skip_blanks-append v rest hu) ∙ until_eol-append v rest hv)
found_if false v rest d other hv hu = refl

sip_hdr-field :
    (h : Field) (rest q : List ℕ) (d : ℕ)
    → IsField h
    → All NameChar q
    → sip_hdr (h.name ++ (58 ∷ 32 ∷ (h.value ++ (13 ∷ 10 ∷ rest)))) q d
      ≡ (if same_name (h.name) q then some (fit (h.value) d) else sip_hdr rest q d)
sip_hdr-field h rest q d ok hq =
    let line : List ℕ = h.name ++ (58 ∷ 32 ∷ (h.value ++ (13 ∷ 10 ∷ rest))) in
    let long = length-append (h.name) (58 ∷ 32 ∷ (h.value ++ (13 ∷ 10 ∷ rest))) in
    sip_hdr_round line q d (omega (arith, long))
    ∙ ap (λ (p : Option (List ℕ)). found p d (sip_hdr (next_line line) q d))
        (after_name-colon (h.name) q (32 ∷ (h.value ++ (13 ∷ 10 ∷ rest))) (ok.name_ok) hq)
    ∙ found_if (same_name (h.name) q) (h.value) (10 ∷ rest) d (sip_hdr (next_line line) q d)
        (ok.value_ok) (ok.unpadded)
    ∙ ap (λ (p : List ℕ). if same_name (h.name) q then some (fit (h.value) d) else sip_hdr p q d)
        (next_line-field h rest ok)

value_or_if :
    (b : Bool) (v : List ℕ) (m : Option (List ℕ)) (d : ℕ) (other : Option (List ℕ))
    → (if b then some (fit v d) else value_or m d other)
      ≡ value_or (if b then some v else m) d other
unfolding value_or
value_or_if true v m d other = refl
value_or_if false v m d other = refl

sip_hdr-fields :
    (hs : List Field) (rest q : List ℕ) (d : ℕ)
    → All IsField hs
    → All NameChar q
    → sip_hdr (fields hs rest) q d ≡ value_or (lookup q hs) d (sip_hdr rest q d)
unfolding fields lookup value_or
sip_hdr-fields [] rest q d ok hq = refl
sip_hdr-fields (h ∷ hs) rest q d ok hq =
    sip_hdr-field h (fields hs rest) q d (ok.0) hq
    ∙ ap (λ (r : Option (List ℕ)). if same_name (h.name) q then some (fit (h.value) d) else r)
        (sip_hdr-fields hs rest q d (ok.1) hq)
    ∙ value_or_if (same_name (h.name) q) (h.value) (lookup q hs) d (sip_hdr rest q d)

empty_line : (rest q : List ℕ) → All NameChar q → after_name q (13 ∷ rest) ≡ none
unfolding after_name lower
empty_line rest [] hq = refl
empty_line rest (y ∷ q) hq = ground arith

sip_hdr-empty_line :
    (body q : List ℕ) (d : ℕ) → All NameChar q → sip_hdr (13 ∷ 10 ∷ body) q d ≡ sip_hdr body q d
unfolding next_line found
sip_hdr-empty_line body q d hq =
    sip_hdr_round (13 ∷ 10 ∷ body) q d (omega arith)
    ∙ ap (λ (p : Option (List ℕ)). found p d (sip_hdr body q d)) (empty_line (10 ∷ body) q hq)

sip_hdr-first_line :
    (word more rest q : List ℕ) (d : ℕ)
    → All NameChar word
    → All ValueChar more
    → All NameChar q
    → sip_hdr (word ++ (32 ∷ (more ++ (13 ∷ 10 ∷ rest)))) q d ≡ sip_hdr rest q d
unfolding next_line found
sip_hdr-first_line word more rest q d hw hm hq =
    let line : List ℕ = word ++ (32 ∷ (more ++ (13 ∷ 10 ∷ rest))) in
    let long = length-append word (32 ∷ (more ++ (13 ∷ 10 ∷ rest))) in
    sip_hdr_round line q d (omega (arith, long))
    ∙ ap (λ (p : Option (List ℕ)). found p d (sip_hdr (next_line line) q d))
        (after_name-space word q (more ++ (13 ∷ 10 ∷ rest)) hw hq)
    ∙ ap (λ (p : List ℕ). sip_hdr p q d)
        (next_line-append word (32 ∷ (more ++ (13 ∷ 10 ∷ rest))) (names_on_line word hw)
          ∙ next_line-append more (13 ∷ 10 ∷ rest) (values_on_line more hm))

-- The header lookup in a message finds the first header of the name, the case of letters aside,
-- and returns its value, cut to the buffer, which has room for an octet. If no header has the name, it goes on in the body.
-- The first line is a word without a colon, a blank and more; a name has no colon, blank or end
-- of line; a value has no end of line and does not begin with a blank or a tab.
pub sip_hdr-message :
    (word more : List ℕ) (hs : List Field) (body q : List ℕ) (d : ℕ)
    → 0 < d
    → All NameChar word
    → All ValueChar more
    → All IsField hs
    → All NameChar q
    → sip_hdr (message word more hs body) q d ≡ value_or (lookup q hs) d (sip_hdr body q d)
unfolding message
sip_hdr-message word more hs body q d room hw hm hs_ok hq =
    sip_hdr-first_line word more (fields hs (13 ∷ 10 ∷ body)) q d hw hm hq
    ∙ sip_hdr-fields hs (13 ∷ 10 ∷ body) q d hs_ok hq
    ∙ ap (value_or (lookup q hs) d) (sip_hdr-empty_line body q d hq)
