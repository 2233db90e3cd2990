-- ===== src/Udptl/Bounds.antt =====
-- When `nf_udptl_build` succeeds, and how long its datagrams are.
use nospandsp_fax.Common.{ℕ, zero, suc, ◌+◌, ◌/◌, ◌%◌, ◌≤◌, ◌<◌, ◌≡◌, refl, arith}
use nospandsp_fax.Common.{none, some, List, [], ◌∷◌, ◌++◌, length, ◌↔◌}
use nospandsp_fax.Common.{◌⊎◌, Option-cases, inl, inr, Bool-cases, ltb, length-append, ◌||◌}
use nospandsp_fax.Udptl.Types.{Udptl}
use nospandsp_fax.Udptl.Encode.{planned, datagram, stash, build, enc_open_type, add_secondaries}
use nospandsp_fax.Udptl.Codec.{IsPacket, wire_of, wires, length-wire_of, enc_open_type_fits}
use nospandsp_fax.Udptl.Codec.{enc_length_short, enc_open_type-eq-some}
use nospandsp_fax.Udptl.Build.{IsLaidOut, datagram-IsLaidOut, layout}
use nospandsp_fax.Udptl.Secondaries.{slots}
use nospandsp_fax.Udptl.History.{Holds, build-eq-some, stash-IsStocked}

datagram_total :
    (s : Udptl) (ifp : List ℕ) (cap : ℕ)
    → planned s < 128
    → IsPacket ifp
    → length ifp + 5 ≤ cap
    → (out : List ℕ) × (datagram s ifp cap ≡ some out)
unfolding datagram
datagram_total s ifp cap few fits room =
    let open_head : List ℕ = (s.tx_seq_no % 65536 / 256) ∷ (s.tx_seq_no % 65536 % 256) ∷ [] in
    (
      add_secondaries s cap (s.tx_seq_no % 65536 % 16)
          (length (open_head ++ wire_of ifp ++ (0 ∷ []))) (planned s) 0
          (open_head ++ wire_of ifp ++ (0 ∷ []) ++ (planned s ∷ [])),
      rw (enc_open_type_fits open_head cap ifp fits.0 (omega (arith, fits)) (omega arith))
          (ground (arith, fits, length-wire_of ifp, enc_length_short (planned s) few)),
    )

-- Too small a buffer is noticed.
datagram-none :
    (s : Udptl) (ifp : List ℕ) (cap : ℕ)
    → IsPacket ifp
    → cap < length ifp + 5
    → datagram s ifp cap ≡ none
unfolding datagram
datagram-none s ifp cap fits short =
    let open_head : List ℕ = (s.tx_seq_no % 65536 / 256) ∷ (s.tx_seq_no % 65536 % 256) ∷ [] in
    elim (Option-cases (enc_open_type open_head cap ifp)) [
      | inl refused ↦ ground (arith, refused)
      | inr (o, taken) ↦ absurd (
          omega (
            arith,
            fits,
            enc_open_type-eq-some open_head cap ifp o fits.0 (omega (arith, fits)) taken,
          ))
    ]

planned-stash : (s : Udptl) (ifp : List ℕ) → planned (stash s ifp) ≡ planned s
unfolding stash
planned-stash s ifp = refl

-- `nf_udptl_build` with a depth of less than 128 returns -1 exactly for a packet that is empty or
-- longer than 512 octets, and for a buffer shorter than the packet and five octets.
pub build-none_iff :
    (s : Udptl) (ifp : List ℕ) (cap : ℕ)
    → s.red_entries < 128
    → ((build s ifp cap).1 ≡ none)
      ↔ ((length ifp < 1) ⊎ ((512 < length ifp) ⊎ (cap < length ifp + 5)))
unfolding build
build-none_iff s ifp cap shallow = elim (Bool-cases (ltb (length ifp) 1 || ltb 512 (length ifp))) [
  | inl illegal ↦ rw illegal (λ _. ground arith, λ _. refl)
  | inr legal ↦ rw legal (elim (Bool-cases (ltb cap (length ifp + 5))) [
    | inl short ↦
        rw (datagram-none (stash s ifp) ifp cap (ground arith) (ground arith))
          (λ _. ground arith, λ _. refl)
    | inr room ↦
        rw
          (datagram_total (stash s ifp) ifp cap (rw (planned-stash s ifp) (ground arith))
            (ground arith) (ground arith)).1
          (λ e. absurd (cc e), λ h. absurd (ground arith))
  ])
]

length-layout :
    (s : Udptl) (ifp : List ℕ) (k : ℕ) → k ≡ 0 → length (layout s ifp k) ≡ length (wire_of ifp) + 4
length-layout s ifp zero e = omega (arith, length-append (wire_of ifp) (0 ∷ 0 ∷ []))
length-layout s ifp (suc k) e = absurd (omega arith)

length-layout_le :
    (s : Udptl) (ifp : List ℕ) (k : ℕ) → length (wire_of ifp) + 4 ≤ length (layout s ifp k)
length-layout_le s ifp k =
    omega
      (arith, length-append (wire_of ifp) (0 ∷ k ∷ wires (slots s (s.tx_seq_no % 65536 % 16) 0 k)))

-- A datagram with no secondary is the packet and five or six octets; one with secondaries fits.
laid_out_length :
    (s : Udptl) (ifp : List ℕ) (cap : ℕ) (out : List ℕ)
    → IsLaidOut s ifp cap out
    → (length out ≡ length (wire_of ifp) + 4)
      ⊎ ((length (wire_of ifp) + 4 ≤ length out) × (length out ≤ cap))
laid_out_length s ifp cap out laid = elim laid.within [
  | inl bare ↦ inl (rw laid.shape (length-layout s ifp laid.k bare))
  | inr fits ↦ inr (rw laid.shape (length-layout_le s ifp laid.k), fits.0)
]

build-length :
    (s s' : Udptl) (sent : List (List ℕ)) (ifp out : List ℕ) (cap : ℕ)
    → Holds s sent
    → s.red_entries ≤ 15
    → build s ifp cap ≡ (s', some out)
    → (length out ≡ length (wire_of ifp) + 4)
      ⊎ ((length (wire_of ifp) + 4 ≤ length out) × (length out ≤ cap))
build-length s s' sent ifp out cap holds shallow e =
    let (fits, _, made) = build-eq-some s ifp cap s' out e in
    laid_out_length (stash s ifp) ifp cap out (
      datagram-IsLaidOut (stash s ifp) ifp cap out (stash-IsStocked s sent holds ifp shallow) fits
        made)

build_room :
    (s s' : Udptl) (ifp out : List ℕ) (cap : ℕ)
    → s.red_entries ≤ 15
    → build s ifp cap ≡ (s', some out)
    → IsPacket ifp × (length ifp + 5 ≤ cap)
build_room s s' ifp out cap shallow e = ground (
  arith,
  (build-eq-some s ifp cap s' out e).0,
  λ (short : cap < length ifp + 5). (build-none_iff s ifp cap (omega arith)).1 (inr (inr short)),
)

-- The datagram stays within the buffer, unless the packet has 128 octets or more and the buffer
-- only five octets besides.
pub build-le_cap :
    (s s' : Udptl) (sent : List (List ℕ)) (ifp out : List ℕ) (cap : ℕ)
    → Holds s sent
    → s.red_entries ≤ 15
    → build s ifp cap ≡ (s', some out)
    → (length ifp < 128) ⊎ (length ifp + 6 ≤ cap)
    → length out ≤ cap
build-le_cap s s' sent ifp out cap holds shallow e room = ground (
  arith,
  build_room s s' ifp out cap shallow e,
  build-length s s' sent ifp out cap holds shallow e,
  length-wire_of ifp,
)

-- For a packet of 128 to 512 octets and a buffer of five octets more the call succeeds, and its
-- datagram is one octet longer than the buffer.
pub build_overrun :
    (s : Udptl) (sent : List (List ℕ)) (ifp : List ℕ)
    → Holds s sent
    → s.red_entries ≤ 15
    → 128 ≤ length ifp
    → length ifp ≤ 512
    → (s' : Udptl) × (out : List ℕ) × (build s ifp (length ifp + 5) ≡ (s', some out))
      × (length out ≡ length ifp + 6)
build_overrun s sent ifp holds shallow long legal =
    elim (Option-cases (build s ifp (length ifp + 5)).1) [
      | inl refused ↦
          absurd (ground (arith, (build-none_iff s ifp (length ifp + 5) (omega arith)).0 refused))
      | inr (out, made) ↦
          let e : build s ifp (length ifp + 5) ≡ ((build s ifp (length ifp + 5)).0, some out) =
            ground (arith, made) in
          (
            (build s ifp (length ifp + 5)).0,
            out,
            e,
            ground (
              arith,
              build-length s _ sent ifp out (length ifp + 5) holds shallow e,
              length-wire_of ifp,
            ),
          )
    ]
