-- ===== src/Tests/Signalling.antt =====
-- The theorems about sip_util.c on an OPTIONS request with two headers and a body.
use nospandsp_fax.Common.{ℕ, ◌≡◌, ◌<◌, refl, arith, some}
use nospandsp_fax.Common.{List, [], ◌∷◌, All, length}
use nospandsp_fax.Sip.{
  sip_hdr, sip_method, parse_quoted, fit, hdr_loop, found, after_name, lower, next_line, until_eol,
  skip_blanks, after_str, after_prefix, first_of, before_quote, quoted_value, behind_key,
}
use nospandsp_fax.Sip.Message.{
  Field, IsField, message, fields, NameChar, ValueChar, lookup, value_or,
}
use nospandsp_fax.Sip.Lookup.{sip_hdr-message}
use nospandsp_fax.Sip.Bounds.{HasRoom, sip_texts_fit}

-- "OPT", "x", "To: ab", "TO: c" and the body "v=0".
abbrev word : List ℕ
word = 79 ∷ 80 ∷ 84 ∷ []

abbrev more : List ℕ
more = 120 ∷ []

abbrev headers : List Field
headers =
    record { name = 84 ∷ 111 ∷ []; value = 97 ∷ 98 ∷ [] }
    ∷ record { name = 84 ∷ 79 ∷ []; value = 99 ∷ [] }
    ∷ []

abbrev body : List ℕ
body = 118 ∷ 61 ∷ 48 ∷ []

word_ok : All NameChar word
word_ok = omega arith

more_ok : All ValueChar more
more_ok = omega arith

headers_ok : All IsField headers
headers_ok = (
  record { name_ok = omega arith; value_ok = omega arith; unpadded = omega arith },
  (record { name_ok = omega arith; value_ok = omega arith; unpadded = omega arith }, tt),
)

-- The name is "tO".
abbrev query : List ℕ
query = 116 ∷ 79 ∷ []

query_ok : All NameChar query
query_ok = omega arith

sip_hdr_example :
    sip_hdr (message word more headers body) query 8
    ≡ value_or (lookup query headers) 8 (sip_hdr body query 8)
sip_hdr_example =
    sip_hdr-message word more headers body query 8 (omega arith) word_ok more_ok headers_ok query_ok

-- It finds "ab".
header_found : sip_hdr (message word more headers body) query 8 ≡ some (97 ∷ 98 ∷ [])
unfolding sip_hdr message fit hdr_loop found after_name lower next_line fields until_eol skip_blanks
header_found = refl

-- `To: ab` in a buffer of two octets: "a" and the NUL.
sip_texts_fit_example :
    HasRoom 2 (sip_hdr (message word more headers body) query 2)
    × (length (sip_method (message word more headers body) 2) < 2)
    × (length (parse_quoted (message word more headers body) query 2) < 2)
sip_texts_fit_example = sip_texts_fit (message word more headers body) query 2 (omega arith)

-- The value of `o="v` and a closing quote.
quoted_found : parse_quoted (120 ∷ 111 ∷ 61 ∷ 34 ∷ 118 ∷ 34 ∷ 122 ∷ []) (111 ∷ []) 9 ≡ 118 ∷ []
unfolding parse_quoted after_str after_prefix first_of before_quote quoted_value behind_key fit
quoted_found = refl
