-- ===== src/Udptl/Build.antt =====
-- The shape of what `nf_udptl_build` writes, and that `nf_udptl_rx` parses it back.
use nospandsp_fax.Common.{ℕ, suc, ◌+◌, ◌/◌, ◌%◌, ◌≤◌, ◌<◌, ◌≡◌, ap, ◌∙◌, arith}
use nospandsp_fax.Common.{some, List, [], ◌∷◌, ◌++◌, append_assoc}
use nospandsp_fax.Common.{append-nil, length, All, get_or}
use nospandsp_fax.Common.{◌⊎◌, inl, inr, sym, Option-cases}
use native.Mathlib.Nat.{zero-add}
use native.Mathlib.Numerals.{add-one}
use nospandsp_fax.Udptl.Types.{Udptl}
use nospandsp_fax.Udptl.Encode.{enc_open_type, slot_back, add_secondaries, planned}
use nospandsp_fax.Udptl.Encode.{datagram}
use nospandsp_fax.Udptl.Decode.{dec_groups, parse}
use nospandsp_fax.Udptl.Secondaries.{slots, length-slots, Added, add_secondaries_lem}
use nospandsp_fax.Udptl.Codec.{wire_of, wires, IsPacket, enc_open_type-eq-some, enc_length_short}
use nospandsp_fax.Udptl.Codec.{dec_length_short}
use nospandsp_fax.Udptl.Codec.{dec_open_type-wire_of, dec_objects-wires}

-- Every planned secondary is in the history.
abbrev pub IsStocked : Udptl → Type 0
IsStocked s =
    (planned s < 128)
    × ((j : ℕ) → j < planned s → IsPacket (get_or s.tx (slot_back (s.tx_seq_no % 65536 % 16) j) []))

-- The fields of a datagram in order: the sequence number, the primary, the type octet 0 and,
-- behind their number, the first `k` secondaries.
abbrev pub layout : Udptl → List ℕ → ℕ → List ℕ
layout s ifp k =
    (s.tx_seq_no % 65536 / 256)
    ∷ (s.tx_seq_no % 65536 % 256)
    ∷ (wire_of ifp ++ (0 ∷ k ∷ wires (slots s (s.tx_seq_no % 65536 % 16) 0 k)))

pub record IsLaidOut (s : Udptl) (ifp : List ℕ) (cap : ℕ) (out : List ℕ) : Type 0 where
  pub k : ℕ
  pub at_most : k ≤ planned s
  pub shape : out ≡ layout s ifp k
  pub within : (k ≡ 0) ⊎ ((length out ≤ cap) × (length out ≤ s.far_max_datagram))
  pub full :
      (k ≡ planned s)
      ⊎ ((cap < length out + 3 + length (get_or s.tx (slot_back (s.tx_seq_no % 65536 % 16) k) []))
          ⊎ (s.far_max_datagram
              < length out + 3 + length (get_or s.tx (slot_back (s.tx_seq_no % 65536 % 16) k) [])))

-- What stands before the count octet.
abbrev before_count : Udptl → List ℕ → List ℕ
before_count s ifp =
    ((s.tx_seq_no % 65536 / 256) ∷ (s.tx_seq_no % 65536 % 256) ∷ wire_of ifp) ++ (0 ∷ [])

datagram-eq-add_secondaries :
    (s : Udptl) (ifp : List ℕ) (cap : ℕ) (out : List ℕ)
    → planned s < 128
    → IsPacket ifp
    → datagram s ifp cap ≡ some out
    → add_secondaries s cap
        (s.tx_seq_no % 65536 % 16)
        (length (before_count s ifp))
        (planned s)
        0
        (before_count s ifp ++ (planned s ∷ []))
      ≡ out
unfolding datagram
datagram-eq-add_secondaries s ifp cap out few fits e =
    let open_head : List ℕ = (s.tx_seq_no % 65536 / 256) ∷ (s.tx_seq_no % 65536 % 256) ∷ [] in
    elim (Option-cases (enc_open_type open_head cap ifp)) [
      | inl refused ↦ absurd (ground (arith, refused))
      | inr (o, taken) ↦ ground (
        arith,
        taken,
        enc_length_short (planned s) few,
        enc_open_type-eq-some open_head cap ifp o fits.0 (omega (arith, fits)) taken,
      )
    ]

IsLaidOut-of_Added :
    (s : Udptl) (ifp : List ℕ) (cap : ℕ) (out result : List ℕ)
    → Added s cap (s.tx_seq_no % 65536 % 16) 0 (planned s) (before_count s ifp) [] result
    → result ≡ out
    → IsLaidOut s ifp cap out
IsLaidOut-of_Added s ifp cap out result added same = record {
  k = added.k;
  at_most = added.at_most;
  shape =
      sym same
      ∙ added.shape
      ∙ rw (zero-add added.k) (
          ap (λ l. (s.tx_seq_no % 65536 / 256) ∷ (s.tx_seq_no % 65536 % 256) ∷ l)
            (append_assoc (wire_of ifp) (0 ∷ []) _));
  within = rw (← same) added.within;
  full = rw (← same) (rw (zero-add added.k) at added.full);
}

pub datagram-IsLaidOut :
    (s : Udptl) (ifp : List ℕ) (cap : ℕ) (out : List ℕ)
    → IsStocked s
    → IsPacket ifp
    → datagram s ifp cap ≡ some out
    → IsLaidOut s ifp cap out
datagram-IsLaidOut s ifp cap out (few, stocked) fits e =
    IsLaidOut-of_Added s ifp cap out _
      (add_secondaries_lem s cap (s.tx_seq_no % 65536 % 16) (before_count s ifp) (planned s) 0
        (planned s) [] (omega arith) few (λ j q. stocked j (omega arith)))
      (datagram-eq-add_secondaries s ifp cap out few fits e)

-- One group of at most 16 packets is read back by the loop over groups.
dec_groups-wires :
    (ps : List (List ℕ)) (fuel k : ℕ)
    → k ≡ length ps
    → All IsPacket ps
    → k ≤ 16
    → dec_groups (suc fuel) [] (k ∷ wires ps) ≡ some ps
unfolding dec_groups
dec_groups-wires ps fuel k e h few =
    rw (dec_length_short k (wires ps) (omega arith))
      (ground (arith, e, append-nil (wires ps), dec_objects-wires ps [] h))

-- `nf_udptl_rx` reads back the sequence number, the primary and the secondaries.
pub parse-layout :
    (s : Udptl) (ifp : List ℕ) (k : ℕ)
    → IsPacket ifp
    → k ≤ 16
    → All IsPacket (slots s (s.tx_seq_no % 65536 % 16) 0 k)
    → parse (layout s ifp k)
      ≡ some (record {
        number = s.tx_seq_no % 65536;
        primary = ifp;
        secs = slots s (s.tx_seq_no % 65536 % 16) 0 k;
      })
unfolding parse
parse-layout s ifp k fits few stocked =
    rw
      (dec_open_type-wire_of ifp (0 ∷ k ∷ wires (slots s (s.tx_seq_no % 65536 % 16) 0 k))
        (omega (arith, fits)))
      (ground (
        arith,
        fits,
        add-one (suc (length (wires (slots s (s.tx_seq_no % 65536 % 16) 0 k)))),
        dec_groups-wires (slots s (s.tx_seq_no % 65536 % 16) 0 k)
            (suc (length (wires (slots s (s.tx_seq_no % 65536 % 16) 0 k)))) k
            (sym (length-slots s (s.tx_seq_no % 65536 % 16) 0 k)) stocked few,
      ))
