-- ===== src/Sip.antt =====
-- The text helpers of sip_util.c. A C string is the list of its characters without the NUL, a
-- pointer into it is the list of what is left, and NULL is `none`.
use nospandsp_fax.Common.{
  ℕ, zero, suc, ◌-◌, ◌+◌, Bool, true, false, ◌&&◌, ◌||◌, Option, none, some, ◌>>=◌,
}
use nospandsp_fax.Common.{List, [], ◌∷◌, ◌++◌, length, take, leb, ◌==◌, if◌then◌else◌}
pub mod Message
pub mod Lookup
pub mod Parts
pub mod Bounds

-- A letter as strncasecmp compares it.
unfoldable pub lower : ℕ → ℕ
lower c = if leb 65 c && leb c 90 then c + 32 else c

-- `strncasecmp(p, name, nl) == 0 && p[nl] == ':'`, then what is behind the colon.
unfoldable pub after_name : List ℕ → List ℕ → Option (List ℕ)
after_name [] [] = none
after_name [] (c ∷ p) = if c == 58 then some p else none
after_name (n ∷ name) [] = none
after_name (n ∷ name) (c ∷ p) = if lower c == lower n then after_name name p else none

unfoldable pub skip_blanks : List ℕ → List ℕ
skip_blanks [] = []
skip_blanks (c ∷ p) = if (c == 32) || (c == 9) then skip_blanks p else c ∷ p

unfoldable pub until_eol : List ℕ → List ℕ
until_eol [] = []
until_eol (c ∷ p) = if (c == 13) || (c == 10) then [] else c ∷ until_eol p

unfoldable pub next_line : List ℕ → List ℕ
next_line [] = []
next_line (c ∷ p) = if c == 10 then p else next_line p

-- What fits into a buffer of `dstlen` octets with its NUL.
unfoldable pub fit : List ℕ → ℕ → List ℕ
fit v dstlen = if leb dstlen (length v) then take (dstlen - 1) v else v

-- One round of `sip_hdr`, given the test of this line and the search in the lines behind it.
unfoldable pub found : Option (List ℕ) → ℕ → Option (List ℕ) → Option (List ℕ)
found (some p) dstlen rest = some (fit (until_eol (skip_blanks p)) dstlen)
found none dstlen rest = rest

unfoldable pub hdr_loop : ℕ → List ℕ → List ℕ → ℕ → Option (List ℕ)
hdr_loop zero msg name dstlen = none
hdr_loop (suc n) [] name dstlen = none
hdr_loop (suc n) (c ∷ p) name dstlen =
    found (after_name name (c ∷ p)) dstlen (hdr_loop n (next_line (c ∷ p)) name dstlen)

-- `sip_hdr`: each round takes a character at least, so that the length is enough fuel.
unfoldable pub sip_hdr : List ℕ → List ℕ → ℕ → Option (List ℕ)
sip_hdr msg name dstlen = hdr_loop (length msg) msg name dstlen

-- The text in front of the first blank or end of line.
unfoldable pub first_word : List ℕ → List ℕ
first_word [] = []
first_word (c ∷ p) = if (c == 32) || ((c == 13) || (c == 10)) then [] else c ∷ first_word p

unfoldable pub sip_method : List ℕ → ℕ → List ℕ
sip_method msg outlen = fit (first_word msg) outlen

-- What is behind `pat` if the text begins with it.
unfoldable pub after_prefix : List ℕ → List ℕ → Option (List ℕ)
after_prefix [] p = some p
after_prefix (x ∷ pat) [] = none
after_prefix (x ∷ pat) (c ∷ p) = if c == x then after_prefix pat p else none

unfoldable pub first_of : Option (List ℕ) → Option (List ℕ) → Option (List ℕ)
first_of none rest = rest
first_of (some p) rest = some p

-- `strstr`, then what is behind the match.
unfoldable pub after_str : List ℕ → List ℕ → Option (List ℕ)
after_str pat [] = after_prefix pat []
after_str pat (c ∷ p) = first_of (after_prefix pat (c ∷ p)) (after_str pat p)

unfoldable pub sip_body : List ℕ → Option (List ℕ)
sip_body msg = after_str (13 ∷ 10 ∷ 13 ∷ 10 ∷ []) msg

-- The text in front of the closing quote, where there is one.
unfoldable pub before_quote : List ℕ → Option (List ℕ)
before_quote [] = none
before_quote (c ∷ p) = if c == 34 then some [] else (before_quote p >>= λ v. some (c ∷ v))

unfoldable pub quoted_value : Option (List ℕ) → ℕ → List ℕ
quoted_value none outlen = []
quoted_value (some v) outlen = fit v outlen

unfoldable pub behind_key : Option (List ℕ) → ℕ → List ℕ
behind_key none outlen = []
behind_key (some p) outlen = quoted_value (before_quote p) outlen

-- `parse_quoted`: the pattern `key="` is cut to the 31 characters of its buffer.
unfoldable pub parse_quoted : List ℕ → List ℕ → ℕ → List ℕ
parse_quoted hdrstr key outlen =
    behind_key (after_str (take 31 (key ++ (61 ∷ 34 ∷ []))) hdrstr) outlen
