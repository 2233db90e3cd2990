-- ===== src/Sip/Bounds.antt =====
-- The text helpers of sip_util.c stay inside the buffers of their callers.
use nospandsp_fax.Common.{ℕ, zero, suc, ◌<◌, arith, Option, none, some, length-take}
use nospandsp_fax.Common.{List, [], ◌∷◌, length, ◌-◌, take, ◌++◌}
use nospandsp_fax.Sip.{
  fit, found, until_eol, skip_blanks, hdr_loop, sip_hdr, after_name, next_line, first_word,
  sip_method, before_quote, quoted_value, behind_key, parse_quoted, after_str,
}

fit-lt : (v : List ℕ) (d : ℕ) → 0 < d → length (fit v d) < d
unfolding fit
fit-lt v d h = let cut = length-take (d - 1) v in ground arith

-- A text that a search returns, with its NUL, has room in `d` octets.
abbrev pub HasRoom : ℕ → Option (List ℕ) → Type 0
HasRoom d none = Unit
HasRoom d (some v) = length v < d

found-HasRoom :
    (m : Option (List ℕ)) (d : ℕ) (rest : Option (List ℕ))
    → 0 < d
    → HasRoom d rest
    → HasRoom d (found m d rest)
unfolding found
found-HasRoom none d rest h hr = hr
found-HasRoom (some p) d rest h hr = fit-lt (until_eol (skip_blanks p)) d h

hdr_loop-HasRoom : (n : ℕ) (msg q : List ℕ) (d : ℕ) → 0 < d → HasRoom d (hdr_loop n msg q d)
unfolding hdr_loop
hdr_loop-HasRoom zero msg q d h = tt
hdr_loop-HasRoom (suc n) [] q d h = tt
hdr_loop-HasRoom (suc n) (c ∷ p) q d h =
    found-HasRoom (after_name q (c ∷ p)) d (hdr_loop n (next_line (c ∷ p)) q d) h
      (hdr_loop-HasRoom n (next_line (c ∷ p)) q d h)

quoted_value-lt : (m : Option (List ℕ)) (d : ℕ) → 0 < d → length (quoted_value m d) < d
unfolding quoted_value
quoted_value-lt none d h = h
quoted_value-lt (some v) d h = fit-lt v d h

behind_key-lt : (m : Option (List ℕ)) (d : ℕ) → 0 < d → length (behind_key m d) < d
unfolding behind_key
behind_key-lt none d h = h
behind_key-lt (some p) d h = quoted_value-lt (before_quote p) d h

-- Whatever the message, the texts that the header lookup, the method and the quoted value leave
-- in a buffer of one octet or more have room there with their NUL.
pub sip_texts_fit :
    (msg key : List ℕ) (d : ℕ)
    → 0 < d
    → HasRoom d (sip_hdr msg key d)
      × (length (sip_method msg d) < d)
      × (length (parse_quoted msg key d) < d)
unfolding sip_hdr sip_method parse_quoted
sip_texts_fit msg key d h = (
  hdr_loop-HasRoom (length msg) msg key d h,
  fit-lt (first_word msg) d h,
  behind_key-lt (after_str (take 31 (key ++ (61 ∷ 34 ∷ []))) msg) d h,
)
