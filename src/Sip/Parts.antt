-- ===== src/Sip/Parts.antt =====
-- The method and the body that sip_util.c finds in a SIP message.
use nospandsp_fax.Common.{ℕ, ◌≡◌, ◌≢◌, refl, ap, ◌∙◌, arith, some}
use nospandsp_fax.Common.{List, [], ◌∷◌, ◌++◌, All}
use nospandsp_fax.Sip.{fit, first_word, sip_method, after_prefix, first_of, after_str, sip_body}
use nospandsp_fax.Sip.Message.{NameChar, ValueChar, Field, IsField, fields, message}

abbrev blank_line : List ℕ
blank_line = 13 ∷ 10 ∷ 13 ∷ 10 ∷ []

abbrev NoReturn : List ℕ → Type 0
NoReturn xs = All (λ c. c ≢ 13) xs

after_str-append :
    (xs ys : List ℕ) → NoReturn xs → after_str blank_line (xs ++ ys) ≡ after_str blank_line ys
unfolding after_str after_prefix first_of
after_str-append [] ys h = refl
after_str-append (x ∷ xs) ys h = let rec = after_str-append xs ys (h.1) in ground arith

names_in_line : (n : List ℕ) → All NameChar n → NoReturn n
names_in_line [] h = tt
names_in_line (x ∷ n) h = (h.0.2, names_in_line n (h.1))

values_in_line : (v : List ℕ) → All ValueChar v → NoReturn v
values_in_line [] h = tt
values_in_line (x ∷ v) h = (h.0.0, values_in_line v (h.1))

-- The end of a line in front of one that is not empty.
line_end :
    (c : ℕ) (p : List ℕ)
    → c ≢ 13
    → after_str blank_line (13 ∷ 10 ∷ c ∷ p) ≡ after_str blank_line (c ∷ p)
unfolding after_str after_prefix first_of
line_end c p h = ground arith

line_end_name :
    (n rest : List ℕ)
    → NoReturn n
    → after_str blank_line (13 ∷ 10 ∷ (n ++ (58 ∷ 32 ∷ rest))) ≡ after_str blank_line rest
unfolding after_str after_prefix first_of
line_end_name [] rest h = refl
line_end_name (x ∷ n) rest h =
    line_end x (n ++ (58 ∷ 32 ∷ rest)) (h.0) ∙ after_str-append (x ∷ n) (58 ∷ 32 ∷ rest) h

body_behind_fields :
    (hs : List Field) (body : List ℕ)
    → All IsField hs
    → after_str blank_line (13 ∷ 10 ∷ fields hs (13 ∷ 10 ∷ body)) ≡ some body
unfolding after_str after_prefix first_of fields
body_behind_fields [] body ok = refl
body_behind_fields (h ∷ hs) body ok =
    line_end_name (h.name) (h.value ++ (13 ∷ 10 ∷ fields hs (13 ∷ 10 ∷ body)))
      (names_in_line (h.name) (ok.0.name_ok))
    ∙ after_str-append (h.value) (13 ∷ 10 ∷ fields hs (13 ∷ 10 ∷ body))
        (values_in_line (h.value) (ok.0.value_ok))
    ∙ body_behind_fields hs body (ok.1)

first_word-append :
    (word rest : List ℕ) → All NameChar word → first_word (word ++ (32 ∷ rest)) ≡ word
unfolding first_word
first_word-append [] rest h = refl
first_word-append (x ∷ word) rest h = let rec = first_word-append word rest (h.1) in ground arith

-- The body of a message is what stands behind its empty line, and its method is the first word,
-- cut to the buffer, for a first line and headers as the header lookup takes them.
pub sip_body-message :
    (word more : List ℕ) (hs : List Field) (body : List ℕ) (outlen : ℕ)
    → All NameChar word
    → All ValueChar more
    → All IsField hs
    → (sip_body (message word more hs body) ≡ some body)
      × (sip_method (message word more hs body) outlen ≡ fit word outlen)
unfolding message sip_body sip_method after_str after_prefix first_of
sip_body-message word more hs body outlen hw hm ok = (
  after_str-append word (32 ∷ (more ++ (13 ∷ 10 ∷ fields hs (13 ∷ 10 ∷ body))))
        (names_in_line word hw)
      ∙ after_str-append more (13 ∷ 10 ∷ fields hs (13 ∷ 10 ∷ body)) (values_in_line more hm)
      ∙ body_behind_fields hs body ok,
  ap (λ (w : List ℕ). fit w outlen)
      (first_word-append word (more ++ (13 ∷ 10 ∷ fields hs (13 ∷ 10 ∷ body))) hw),
)
