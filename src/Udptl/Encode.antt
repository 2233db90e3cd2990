-- ===== src/Udptl/Encode.antt =====
-- The sending half of nf_udptl.c: `enc_length`, `enc_open_type`, `nf_udptl_build`.
use nospandsp_fax.Common.{ℕ, zero, suc, ◌+◌, ◌*◌, ◌/◌, ◌%◌, Option, none, some, List, [], ◌∷◌}
use nospandsp_fax.Common.{◌++◌, ◌||◌, bit_or, u8, length, get_or, set, ltb, leb, ◌==◌}
use nospandsp_fax.Common.{if◌then◌else◌, ◌>>=◌, ◌>>◌, guard}
use nospandsp_fax.Udptl.Types.{Udptl, max_ifp, buf_slots}

-- `enc_length`: the octets written, and the return value. Between 0x80 and 0x3FFF the flag bit
-- 0x80 and `value >> 8` share no bit.
unfoldable pub enc_length : ℕ → List ℕ × ℕ
enc_length value =
    if ltb value 0x80
    then (u8 value ∷ [], value)
    else if ltb value 0x4000
    then (u8 (0x80 + value / 256) ∷ value % 256 ∷ [], value)
    else (u8 (bit_or 0xC0 (value / 16384)) ∷ [], value / 16384 * 16384)

-- `enc_open_type`: an empty payload is replaced by one zero octet.
unfoldable pub enc_open_type : List ℕ → ℕ → List ℕ → Option (List ℕ)
enc_open_type out cap payload =
    let body : List ℕ = if length payload == 0 then 0 ∷ [] else payload in
    let (octets, wrote) = enc_length (length body) in
    if ltb cap (length out + 3 + length body)
    then none
    else if wrote == length body
    then some (out ++ (octets ++ body))
    else none

-- `(entry - m - 1) & NF_UDPTL_MASK`; 15 is -1 modulo 16.
abbrev pub slot_back : ℕ → ℕ → ℕ
slot_back entry m = (entry + 15 * (m + 1)) % buf_slots

-- The `for` loop of `nf_udptl_build` over the secondaries, with `left` rounds to go.
-- Both early exits leave out what does not fit and correct the count already written.
unfoldable pub add_secondaries : Udptl → ℕ → ℕ → ℕ → ℕ → ℕ → List ℕ → List ℕ
add_secondaries s cap entry len_entries zero m out = out
add_secondaries s cap entry len_entries (suc left) m out =
    elim (enc_open_type out cap (get_or s.tx (slot_back entry m) [])) [
      | none ↦ set out len_entries (u8 m)
      | some out' ↦
          let rest = add_secondaries s cap entry len_entries left (m + 1) out' in
          if ltb s.far_max_datagram (length out') then set out len_entries (u8 m) else rest
    ]

-- `(s->tx_seq_no > s->red_entries) ? s->red_entries : s->tx_seq_no`
abbrev pub planned : Udptl → ℕ
planned s = if ltb s.red_entries s.tx_seq_no then s.red_entries else s.tx_seq_no

-- `nf_udptl_build` from the capacity test to the end of the loop, after the packet is stashed.
unfoldable pub datagram : Udptl → List ℕ → ℕ → Option (List ℕ)
datagram s ifp cap = do
  let seq = s.tx_seq_no % 65536
  guard (leb 4 cap)
  out ← enc_open_type (seq / 256 ∷ seq % 256 ∷ []) cap ifp
  guard (ltb (length out) cap)
  let head = out ++ (0 ∷ [])
  let (octets, wrote) = enc_length (planned s)
  guard (wrote == planned s)
  some (add_secondaries s cap (seq % buf_slots) (length head) (planned s) 0 (head ++ octets))

-- The packet goes into the history before anything can fail.
unfoldable pub stash : Udptl → List ℕ → Udptl
stash s ifp = record s { tx = set s.tx (s.tx_seq_no % 65536 % buf_slots) ifp }

-- `nf_udptl_build`: the new state, and the datagram or -1.
unfoldable pub build : Udptl → List ℕ → ℕ → Udptl × Option (List ℕ)
unfolding stash
build s ifp cap =
    let s' = stash s ifp in
    let sent : Udptl = record s' { tx_seq_no = s'.tx_seq_no + 1 } in
    let result : Udptl × Option (List ℕ) = elim (datagram s' ifp cap) [
      | none ↦ (s', none)
      | some out ↦ (sent, some out)
    ] in
    if ltb (length ifp) 1 || ltb max_ifp (length ifp) then (s, none) else result
