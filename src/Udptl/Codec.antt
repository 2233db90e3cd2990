-- ===== src/Udptl/Codec.antt =====
-- The open-type codec: what the encoder writes, the decoder reads back.
use nospandsp_fax.Common.{ℕ, ◌+◌, ◌≤◌, ◌<◌, ◌≡◌, refl, arith}
use nospandsp_fax.Common.{false, none, some, List, [], ◌∷◌, ◌++◌, append_assoc}
use nospandsp_fax.Common.{length, length-append, take-append_length, drop-append_length, All}
use nospandsp_fax.Udptl.Encode.{enc_length, enc_open_type}
use nospandsp_fax.Udptl.Decode.{dec_length, dec_open_type, dec_objects}

-- Below the fragmentation limit 0x4000 the length codec is a round trip, whatever follows.
pub dec_length-enc_length :
    (n : ℕ) (rest : List ℕ)
    → n < 0x4000
    → dec_length ((enc_length n).0 ++ rest) ≡ some (false, n, rest)
unfolding enc_length dec_length
dec_length-enc_length n [] h = ground arith
dec_length-enc_length n (x ∷ rest) h = ground arith

-- The encoder reports the whole value and writes one or two octets.
pub enc_length_shape :
    (n : ℕ)
    → n < 0x4000
    → ((enc_length n).1 ≡ n) × (1 ≤ length (enc_length n).0) × (length (enc_length n).0 ≤ 2)
unfolding enc_length
enc_length_shape n h = ground arith

pub enc_length_short : (n : ℕ) → n < 0x80 → enc_length n ≡ (n ∷ [], n)
unfolding enc_length
enc_length_short n h = ground arith

pub dec_length_short :
    (n : ℕ) (rest : List ℕ) → n < 0x80 → dec_length (n ∷ rest) ≡ some (false, n, rest)
unfolding dec_length
dec_length_short n [] h = ground arith
dec_length_short n (x ∷ rest) h = ground arith

-- What an open type looks like on the wire.
pub wire_of : List ℕ → List ℕ
wire_of packet = (enc_length (length packet)).0 ++ packet

pub enc_open_type_fits :
    (out : List ℕ) (cap : ℕ) (packet : List ℕ)
    → 1 ≤ length packet
    → length packet < 0x4000
    → length out + 3 + length packet ≤ cap
    → enc_open_type out cap packet ≡ some (out ++ wire_of packet)
unfolding enc_open_type wire_of
enc_open_type_fits out cap packet pos small room = ground (arith, enc_length_shape (length packet))

-- The only refusal of a packet of legal size is for want of room.
pub enc_open_type-eq-some :
    (out : List ℕ) (cap : ℕ) (packet out' : List ℕ)
    → 1 ≤ length packet
    → length packet < 0x4000
    → enc_open_type out cap packet ≡ some out'
    → (out' ≡ out ++ wire_of packet) × (length out + 3 + length packet ≤ cap)
unfolding enc_open_type wire_of
enc_open_type-eq-some out cap packet out' pos small e =
    ground (arith, enc_length_shape (length packet))

pub enc_open_type-eq-none :
    (out : List ℕ) (cap : ℕ) (packet : List ℕ)
    → 1 ≤ length packet
    → length packet < 0x4000
    → enc_open_type out cap packet ≡ none
    → cap < length out + 3 + length packet
unfolding enc_open_type
enc_open_type-eq-none out cap packet pos small e = ground (arith, enc_length_shape (length packet))

pub length-wire_of :
    (packet : List ℕ)
    → length packet < 0x4000
    → (length packet + 1 ≤ length (wire_of packet))
      × (length (wire_of packet) ≤ length packet + 2)
      × (length packet < 128 → length (wire_of packet) ≡ length packet + 1)
      × (128 ≤ length packet → length (wire_of packet) ≡ length packet + 2)
unfolding wire_of enc_length
length-wire_of packet small =
    rw (length-append (enc_length (length packet)).0 packet) (ground arith)

pub dec_open_type-wire_of :
    (packet rest : List ℕ)
    → length packet < 0x4000
    → dec_open_type (wire_of packet ++ rest) ≡ some (packet, rest)
unfolding dec_open_type wire_of
dec_open_type-wire_of packet rest small =
    rw
      (
        append_assoc (enc_length (length packet)).0 packet rest,
        dec_length-enc_length (length packet) (packet ++ rest) small,
        take-append_length packet rest,
        drop-append_length packet rest,
        length-append packet rest,
      )
      (ground arith)

-- An open type of 1 to 16383 octets is read back whole, with what follows it left over.
pub dec_open_type-enc_open_type :
    (cap : ℕ) (packet rest out : List ℕ)
    → 1 ≤ length packet
    → length packet < 0x4000
    → enc_open_type [] cap packet ≡ some out
    → dec_open_type (out ++ rest) ≡ some (packet, rest)
dec_open_type-enc_open_type cap packet rest out pos small e =
    rw (enc_open_type-eq-some [] cap packet out pos small e).0
      (dec_open_type-wire_of packet rest small)

abbrev pub IsPacket : List ℕ → Type 0
IsPacket p = (1 ≤ length p) × (length p ≤ 512)

-- The wire form of a run of secondaries.
abbrev pub wires : List (List ℕ) → List ℕ
wires [] = []
wires (p ∷ ps) = wire_of p ++ wires ps

pub dec_objects-wires :
    (ps : List (List ℕ)) (rest : List ℕ)
    → All IsPacket ps
    → dec_objects (length ps) (wires ps ++ rest) ≡ some (ps, rest)
unfolding dec_objects
dec_objects-wires [] rest h = refl
dec_objects-wires (p ∷ ps) rest (hp, h) = rw (
  append_assoc (wire_of p) (wires ps) rest,
  dec_open_type-wire_of p (wires ps ++ rest) (omega arith),
  dec_objects-wires ps rest h,
)
