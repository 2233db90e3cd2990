-- ===== src/T30/Payload.antt =====
-- The file transfer format of nf_t30.c, written and read back.
use nospandsp_fax.Common.{ℕ, zero, suc, ◌+◌, ◌/◌, ◌^◌, ◌<◌, ◌≡◌, refl, arith}
use nospandsp_fax.Common.{
  List, ◌∷◌, ◌++◌, length, take, drop, some, ap, ◌∙◌, take_short, ltb, false,
}
use nospandsp_fax.Common.{take-append_length, drop-append_length, length-append}
use native.Mathlib.Nat.{pow-suc}
use nospandsp_fax.T30.Pages.{le_octets, from_le, file_payload, read_payload}

length-le_octets : (count n : ℕ) → length (le_octets count n) ≡ count
unfolding le_octets
length-le_octets zero n = refl
length-le_octets (suc count) n = ap suc (length-le_octets count (n / 256))

from_le-le_octets : (count n : ℕ) → n < 256 ^ count → from_le (le_octets count n) ≡ n
unfolding from_le le_octets
from_le-le_octets zero n lt = omega arith
from_le-le_octets (suc count) n lt =
    let rest = from_le-le_octets count (n / 256) (omega (arith, pow-suc 256 count)) in
    rw rest (omega arith)

-- `take` and `drop` of a length that is given by another name.
take-append_by : (n : ℕ) (xs ys : List ℕ) → length xs ≡ n → take n (xs ++ ys) ≡ xs
take-append_by n xs ys sized = rw⁻¹ sized (take-append_length xs ys)

drop-append_by : (n : ℕ) (xs ys : List ℕ) → length xs ≡ n → drop n (xs ++ ys) ≡ ys
drop-append_by n xs ys sized = rw⁻¹ sized (drop-append_length xs ys)

-- The reader on any name and any size octets of the right lengths.
read_parts :
    (nl : ℕ) (name size contents : List ℕ)
    → length name ≡ nl
    → length size ≡ 8
    → from_le size ≡ length contents
    → read_payload (78 ∷ 70 ∷ 70 ∷ 88 ∷ 49 ∷ nl ∷ (name ++ (size ++ contents))) ≡ some contents
unfolding read_payload
read_parts nl name size contents named sized counted =
    let rest = size ++ contents in
    let page = 78 ∷ 70 ∷ 70 ∷ 88 ∷ 49 ∷ nl ∷ (name ++ rest) in
    let total : length page ≡ 14 + (nl + length contents) =
      omega (arith, length-append name rest, length-append size contents, named, sized) in
    let place : 6 + nl ≡ suc (suc (suc (suc (suc (suc nl))))) = omega arith in
    let behind : drop (6 + nl) page ≡ rest =
      ap (λ (k : ℕ). drop k page) place ∙ drop-append_by nl name rest named in
    let whole : ltb (length page) 14 ≡ false = ground (arith, total) in
    let holds : ltb (length page) (6 + nl + 8) ≡ false = ground (arith, total) in
    let fits : ltb (length contents) (length contents) ≡ false = ground arith in
    rw
      (
        whole,
        holds,
        behind,
        take-append_by 8 size contents sized,
        drop-append_by 8 size contents sized,
        counted,
        fits,
        take_short contents (length contents) (omega arith),
      )
      refl

-- A file of less than 2^64 octets is read back from the payload as it was, whatever its name.
pub read_payload-file_payload :
    (name contents : List ℕ)
    → length contents < 2 ^ 64
    → read_payload (file_payload name contents) ≡ some contents
unfolding file_payload
read_payload-file_payload name contents short =
    read_parts (length (take 255 name)) (take 255 name) (le_octets 8 (length contents)) contents
      refl (length-le_octets 8 (length contents))
      (from_le-le_octets 8 (length contents) (omega arith))
