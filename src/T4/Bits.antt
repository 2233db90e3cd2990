-- ===== src/T4/Bits.antt =====
-- The bit layer of the encoder of nf_t4.c: what `eput` makes of the bits that are out.
use nospandsp_fax.Common.{
  ℕ, zero, suc, ◌+◌, ◌-◌, ◌*◌, ◌/◌, ◌%◌, ◌^◌, ◌≤◌, ◌<◌, ◌≡◌, refl, ap, sym, arith, ◌∙◌,
}
use nospandsp_fax.Common.{
  List, [], ◌∷◌, ◌++◌, append_assoc, data_bits, octet_bits, bit_or, u32, or_fields,
}
use nospandsp_fax.Common.{bit_or-zero_octet}
use Prim.Native.Nat.{bit_or-bitwise}
use native.Mathlib.Nat.{pow-suc}
use nospandsp_fax.T4.Encode.{Enc, eput, flush_octets}

-- The lowest `n` bits of a value, lowest first.
abbrev pub bits_of : ℕ → ℕ → List ℕ
bits_of zero v = []
bits_of (suc n) v = v % 2 ∷ bits_of n (v / 2)

-- The bits that are out: the octets of the buffer and the accumulator.
abbrev pub written : Enc → List ℕ
written e = data_bits e.buf ++ bits_of e.nbits e.acc

bits_of-fields :
    (n len v a : ℕ) → a < 2 ^ n → bits_of (n + len) (v * 2 ^ n + a) ≡ bits_of n a ++ bits_of len v
bits_of-fields zero len v zero lt =
    let count : 0 + len ≡ len = omega arith in
    let value : v * 2 ^ 0 + 0 ≡ v = omega arith in rw (count, value) refl
bits_of-fields zero len v (suc a) lt = absurd (omega arith)
bits_of-fields (suc n) len v a lt =
    let twice : v * 2 ^ suc n ≡ 2 * (v * 2 ^ n) = rw (pow-suc 2 n) (omega arith) in
    let low : (v * 2 ^ suc n + a) % 2 ≡ a % 2 = omega (arith, twice) in
    let high : (v * 2 ^ suc n + a) / 2 ≡ v * 2 ^ n + a / 2 = omega (arith, twice) in
    let count : suc n + len ≡ suc (n + len) = omega arith in
    rw (count, low, high, bits_of-fields n len v (a / 2) (omega (arith, pow-suc 2 n))) refl

bits_of_octet : (v : ℕ) → bits_of 8 v ≡ octet_bits (v % 256)
bits_of_octet v =
    let b1 : v % 256 / 2 ^ 1 % 2 ≡ v / 2 % 2 = omega arith in
    let b2 : v % 256 / 2 ^ 2 % 2 ≡ v / 2 / 2 % 2 = omega arith in
    let b3 : v % 256 / 2 ^ 3 % 2 ≡ v / 2 / 2 / 2 % 2 = omega arith in
    let b4 : v % 256 / 2 ^ 4 % 2 ≡ v / 2 / 2 / 2 / 2 % 2 = omega arith in
    let b5 : v % 256 / 2 ^ 5 % 2 ≡ v / 2 / 2 / 2 / 2 / 2 % 2 = omega arith in
    let b6 : v % 256 / 2 ^ 6 % 2 ≡ v / 2 / 2 / 2 / 2 / 2 / 2 % 2 = omega arith in
    let b7 : v % 256 / 2 ^ 7 % 2 ≡ v / 2 / 2 / 2 / 2 / 2 / 2 / 2 % 2 = omega arith in
    let b0 : v % 256 / 2 ^ 0 % 2 ≡ v % 2 = omega arith in rw (b0, b1, b2, b3, b4, b5, b6, b7) refl

data_bits-append : (xs ys : List ℕ) → data_bits (xs ++ ys) ≡ data_bits xs ++ data_bits ys
data_bits-append [] ys = refl
data_bits-append (x ∷ xs) ys =
    rw (data_bits-append xs ys) (sym (append_assoc (octet_bits x) (data_bits xs) (data_bits ys)))

-- Eight bits move from the accumulator to the buffer.
written-flush_octet :
    (e : Enc)
    → 8 ≤ e.nbits
    → data_bits (e.buf ++ (e.acc % 256 ∷ [])) ++ bits_of (e.nbits - 8) (e.acc / 256) ≡ written e
written-flush_octet e enough =
    let split : e.acc / 256 * 2 ^ 8 + e.acc % 256 ≡ e.acc = omega arith in
    let count : 8 + (e.nbits - 8) ≡ e.nbits = omega arith in
    let low : bits_of 8 (e.acc % 256) ≡ octet_bits (e.acc % 256) =
      bits_of_octet (e.acc % 256) ∙ ap octet_bits (omega arith) in
    let rest = bits_of (e.nbits - 8) (e.acc / 256) in
    let halves : bits_of e.nbits e.acc ≡ bits_of 8 (e.acc % 256) ++ rest =
      rw (split, count) at
        (bits_of-fields 8 (e.nbits - 8) (e.acc / 256) (e.acc % 256) (omega arith)) in
    let fields : bits_of e.nbits e.acc ≡ octet_bits (e.acc % 256) ++ rest =
      halves ∙ ap (λ (t : List ℕ). t ++ rest) low in
    rw (data_bits-append e.buf (e.acc % 256 ∷ [])) (
      append_assoc (data_bits e.buf) (octet_bits (e.acc % 256)) _
      ∙ ap (λ (t : List ℕ). data_bits e.buf ++ t) (sym fields))

written-flush_octets :
    (k : ℕ) (e : Enc)
    → k * 8 ≤ e.nbits
    → (written (flush_octets k e) ≡ written e) × ((flush_octets k e).nbits ≡ e.nbits - k * 8)
unfolding flush_octets
written-flush_octets zero e enough = (refl, omega arith)
written-flush_octets (suc k) e enough =
    let e' : Enc = record e {
      buf = e.buf ++ (e.acc % 256 ∷ []);
      acc = e.acc / 256;
      nbits = e.nbits - 8;
    } in
    let (same, left) = written-flush_octets k e' (omega arith) in
    (same ∙ written-flush_octet e (omega arith), left ∙ omega arith)

-- A code of 24 bits still fits above an accumulator of up to seven.
code_room : (n c : ℕ) → n < 8 → c < 2 ^ 24 → c * 2 ^ n + 2 ^ n ≤ 2 ^ 32
code_room zero c few short = omega arith
code_room (suc zero) c few short = omega arith
code_room (suc (suc zero)) c few short = omega arith
code_room (suc (suc (suc zero))) c few short = omega arith
code_room (suc (suc (suc (suc zero)))) c few short = omega arith
code_room (suc (suc (suc (suc (suc zero))))) c few short = omega arith
code_room (suc (suc (suc (suc (suc (suc zero)))))) c few short = omega arith
code_room (suc (suc (suc (suc (suc (suc (suc zero))))))) c few short = omega arith
code_room (suc (suc (suc (suc (suc (suc (suc (suc n)))))))) c few short = absurd (omega arith)

acc_room : (n : ℕ) → n < 8 → 2 ^ n ≤ 128
acc_room zero few = omega arith
acc_room (suc zero) few = omega arith
acc_room (suc (suc zero)) few = omega arith
acc_room (suc (suc (suc zero))) few = omega arith
acc_room (suc (suc (suc (suc zero)))) few = omega arith
acc_room (suc (suc (suc (suc (suc zero))))) few = omega arith
acc_room (suc (suc (suc (suc (suc (suc zero)))))) few = omega arith
acc_room (suc (suc (suc (suc (suc (suc (suc zero))))))) few = omega arith
acc_room (suc (suc (suc (suc (suc (suc (suc (suc n)))))))) few = absurd (omega arith)

zero-bit_or : (b : ℕ) → bit_or 0 b ≡ b
zero-bit_or b = bit_or-bitwise 0 b

-- The accumulator takes a code above the bits it has.
acc_after :
    (n a c : ℕ) → n < 8 → a < 2 ^ n → c < 2 ^ 24 → u32 (bit_or a (c * 2 ^ n)) ≡ c * 2 ^ n + a
acc_after n a c few small short =
    let bare : 0 * 2 ^ n + a ≡ a = omega arith in
    let lifted : c * 2 ^ n + 0 ≡ c * 2 ^ n = omega arith in
    let fields = rw (bare, lifted) at (or_fields n 0 c a 0 small (omega (arith, small))) in
    let octet : a < 256 = omega (arith, small, acc_room n few) in
    let whole : bit_or a (c * 2 ^ n) ≡ c * 2 ^ n + a =
      rw (zero-bit_or c, bit_or-zero_octet a octet) at fields in
    omega (arith, whole, code_room n c few short)

-- `eput` writes the `len` lowest bits of a code behind what is out, lowest first, and leaves fewer
-- than eight bits in the accumulator, if it had fewer and the code has at most 24 bits.
pub written-eput :
    (e : Enc) (code len : ℕ)
    → e.nbits < 8
    → e.acc < 2 ^ e.nbits
    → code < 2 ^ 24
    → (written (eput e code len) ≡ written e ++ bits_of len code) × ((eput e code len).nbits < 8)
unfolding eput
written-eput e code len few small short =
    let e' : Enc = record e {
      acc = u32 (bit_or e.acc (code * 2 ^ e.nbits));
      nbits = e.nbits + len;
      row_bits = e.row_bits + len;
    } in
    let (same, left) = written-flush_octets ((e.nbits + len) / 8) e' (omega arith) in
    let taken : bits_of (e.nbits + len) (u32 (bit_or e.acc (code * 2 ^ e.nbits)))
        ≡ bits_of e.nbits e.acc ++ bits_of len code =
      rw (acc_after e.nbits e.acc code few small short)
        (bits_of-fields e.nbits len code e.acc small) in
    (
      same
          ∙ (ap (λ (t : List ℕ). data_bits e.buf ++ t) taken
              ∙ sym (append_assoc (data_bits e.buf) (bits_of e.nbits e.acc) (bits_of len code))),
      omega (arith, left),
    )
