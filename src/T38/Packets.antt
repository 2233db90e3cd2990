-- ===== src/T38/Packets.antt =====
-- IFP packets of nf_t38.c from the sender to the receiver, and the reassembly of HDLC frames.
use nospandsp_fax.Common.{
  ℕ, ◌+◌, ◌-◌, ◌*◌, ◌/◌, ◌%◌, ◌^◌, ◌≤◌, ◌<◌, ◌≡◌, refl, ap, sym, arith, true, false,
}
use nospandsp_fax.Common.{List, [], ◌∷◌, bit, bit_or, low_bits, u8, length, take, ltb, ◌==◌, ==_iff}
use nospandsp_fax.Common.{all_below, all_below_sound}
use nospandsp_fax.T38.Wire.{ifp_indicator, ifp_data}
use nospandsp_fax.T38.Receive.{indicator, fields, ifp_count, ifp_fields, parse_ifp}

-- An indicator below 32 is received as it was sent.
pub parse_ifp-ifp_indicator : (ind : ℕ) → ind < 32 → parse_ifp (ifp_indicator ind) ≡ indicator ind
unfolding parse_ifp ifp_indicator
parse_ifp-ifp_indicator ind lt = ground arith

take_all : (xs : List ℕ) → take (length xs) xs ≡ xs
take_all [] = refl
take_all (x ∷ xs) = ap (λ (t : List ℕ). x ∷ t) (take_all xs)

header_octet : (dt : ℕ) → dt < 32 → u8 (bit_or 0xC0 (dt * 2)) / 2 ^ 6 % 2 ≡ 1
header_octet dt lt = (==_iff _ _).0 (
    all_below_sound 32 (λ dt. u8 (bit_or 0xC0 (dt * 2)) / 2 ^ 6 % 2 == 1) dt
      (unfold all_below in refl) lt)

full_field : (ft : ℕ) → ft < 8 → u8 (bit_or 0x80 (ft * 16)) ≡ 128 + ft * 16
full_field ft lt = (==_iff _ _).0 (
    all_below_sound 8 (λ ft. u8 (bit_or 0x80 (ft * 16)) == 128 + ft * 16) ft
      (unfold all_below in refl) lt)

ifp_data-some :
    (dt ft n : ℕ) (payload : List ℕ)
    → length payload ≡ n + 1
    → ifp_data dt ft payload
      ≡ u8 (bit_or 0xC0 (dt * 2))
        ∷ 1
        ∷ u8 (bit_or 0x80 (ft * 16))
        ∷ u8 (n / 256)
        ∷ n % 256
        ∷ payload
unfolding ifp_data
ifp_data-some dt ft n payload e =
    let n_back : n + 1 - 1 ≡ n = omega arith in
    let some_octets : ltb 0 (n + 1) ≡ true = ground arith in rw (e, some_octets, n_back)

ifp_fields_one :
    (ft n : ℕ) (payload : List ℕ)
    → ft < 8
    → n < 65536
    → length payload ≡ n + 1
    → ifp_fields 1 (u8 (bit_or 0x80 (ft * 16)) ∷ u8 (n / 256) ∷ n % 256 ∷ payload)
      ≡ record { ft = ft; payload = payload } ∷ []
unfolding ifp_fields
ifp_fields_one ft n payload hf hn e =
    let len : u8 (n / 256) * 256 + n % 256 + 1 ≡ n + 1 = omega arith in
    let given : (bit (128 + ft * 16) 7 == 0) ≡ false = ground arith in
    let kind : low_bits ((128 + ft * 16) / 16) 3 ≡ ft = omega arith in
    rw (full_field ft hf, len, given, kind, sym e) (ground (arith, take_all payload))

-- A data packet is received as the one field that was sent, without a payload or with one of up to
-- 65536 octets; its type is below 8, and the type of data, below 32, does not matter.
pub parse_ifp-ifp_data :
    (dt ft : ℕ) (payload : List ℕ)
    → dt < 32
    → ft < 8
    → length payload ≤ 65536
    → parse_ifp (ifp_data dt ft payload) ≡ fields (record { ft = ft; payload = payload } ∷ [])
unfolding parse_ifp ifp_data ifp_count ifp_fields
parse_ifp-ifp_data dt ft [] hd hf hl = rw (header_octet dt hd) (ground arith)
parse_ifp-ifp_data dt ft (x ∷ xs) hd hf hl = rw (
  ifp_data-some dt ft (length xs) (x ∷ xs) (omega arith),
  header_octet dt hd,
  ifp_fields_one ft (length xs) (x ∷ xs) hf (omega arith) (omega arith),
)
