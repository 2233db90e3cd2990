-- ===== src/Udptl/History.antt =====
-- The sender's ring of 16 slots refines the log of all packets sent, newest first.
use nospandsp_fax.Common.{ℕ, zero, suc, ◌+◌, ◌%◌, ◌≤◌, ◌<◌, ◌≡◌, ◌⊎◌, refl, ◌∙◌}
use nospandsp_fax.Common.{Option, none, some, List, [], ◌∷◌, arith, length, length-set, All, get_or}
use nospandsp_fax.Common.{
  get_or-set_self, get_or-set_ne, set, Option-cases, inl, inr, All-get_or_lt,
}
use nospandsp_fax.Common.{CInt}
use nospandsp_fax.Udptl.Types.{Udptl, init}
use nospandsp_fax.Udptl.Encode.{slot_back, datagram, stash, build}
use nospandsp_fax.Udptl.Codec.{IsPacket}
use nospandsp_fax.Udptl.Build.{IsStocked}

-- `sent` is the log, newest first, and the last 15 packets of it stand in the ring.
pub record Holds (s : Udptl) (sent : List (List ℕ)) : Type 0 where
  pub counted : s.tx_seq_no ≡ length sent
  pub ring : length s.tx ≡ 16
  pub legal : All IsPacket sent
  pub recent :
      (j : ℕ)
      → j < 15
      → j < length sent
      → get_or s.tx (slot_back (s.tx_seq_no % 65536 % 16) j) [] ≡ get_or sent j []

pub init-Holds : (depth far : CInt) → Holds (init depth far) []
unfolding init
init-Holds depth far = record {
  counted = refl;
  ring = refl;
  legal = tt;
  recent = λ j h lt. absurd (omega arith);
}

-- What a successful `build` did.
pub build-eq-some :
    (s : Udptl) (ifp : List ℕ) (cap : ℕ) (s' : Udptl) (out : List ℕ)
    → build s ifp cap ≡ (s', some out)
    → IsPacket ifp
      × (s' ≡ record (stash s ifp) { tx_seq_no = s.tx_seq_no + 1 })
      × (datagram (stash s ifp) ifp cap ≡ some out)
unfolding build
build-eq-some s ifp cap s' out e = elim (Option-cases (datagram (stash s ifp) ifp cap)) [
  | inl refused ↦ absurd (ground (arith, refused))
  | inr (o, made) ↦ ground (arith, made)
]

-- What a refused `build` did: nothing, or the packet is in the ring but not counted.
build-eq-none :
    (s : Udptl) (ifp : List ℕ) (cap : ℕ) (s' : Udptl)
    → build s ifp cap ≡ (s', none)
    → (s' ≡ s) ⊎ (s' ≡ stash s ifp)
unfolding build
build-eq-none s ifp cap s' e = elim (Option-cases (datagram (stash s ifp) ifp cap)) [
  | inl refused ↦ ground (arith, refused)
  | inr (o, made) ↦ ground (arith, made)
]

module _ (s : Udptl) (sent : List (List ℕ)) (holds : Holds s sent) (ifp : List ℕ) where
  -- The slot that is written is not among the last 15.
  stash-recent :
      (j : ℕ)
      → j < 15
      → j < length sent
      → get_or (stash s ifp).tx (slot_back (s.tx_seq_no % 65536 % 16) j) [] ≡ get_or sent j []
  unfolding stash
  stash-recent j few lt =
      get_or-set_ne s.tx (s.tx_seq_no % 65536 % 16) (slot_back (s.tx_seq_no % 65536 % 16) j) ifp []
        (omega arith)
      ∙ holds.recent j few lt

  pub stash-Holds : Holds (stash s ifp) sent
  unfolding stash
  stash-Holds = record {
    counted = holds.counted;
    ring = length-set s.tx (s.tx_seq_no % 65536 % 16) ifp ∙ holds.ring;
    legal = holds.legal;
    recent = stash-recent;
  }

  sent-Holds :
      IsPacket ifp → Holds (record (stash s ifp) { tx_seq_no = s.tx_seq_no + 1 }) (ifp ∷ sent)
  unfolding stash
  sent-Holds fits = record {
    counted = omega (arith, holds.counted);
    ring = length-set s.tx (s.tx_seq_no % 65536 % 16) ifp ∙ holds.ring;
    legal = (fits, holds.legal);
    recent = back;
  }
    where
      back :
          (j : ℕ)
          → j < 15
          → j < suc (length sent)
          → get_or
              (set s.tx (s.tx_seq_no % 65536 % 16) ifp)
              (slot_back ((s.tx_seq_no + 1) % 65536 % 16) j)
              []
            ≡ get_or (ifp ∷ sent) j []
      back zero few lt =
          let same : slot_back ((s.tx_seq_no + 1) % 65536 % 16) 0 ≡ s.tx_seq_no % 65536 % 16 =
            omega arith in
          rw same
            (get_or-set_self s.tx (s.tx_seq_no % 65536 % 16) ifp [] (omega (arith, holds.ring)))
      back (suc j) few lt =
          let same : slot_back ((s.tx_seq_no + 1) % 65536 % 16) (suc j)
              ≡ slot_back (s.tx_seq_no % 65536 % 16) j =
            omega arith in
          rw same (stash-recent j (omega arith) (omega arith))

  -- With a depth of at most 15 every planned secondary is a packet sent before.
  pub stash-IsStocked : s.red_entries ≤ 15 → IsStocked (stash s ifp)
  unfolding stash
  stash-IsStocked shallow = (
    ground arith,
    λ j lt.
        rw (stash-recent j (ground arith) (ground (arith, holds.counted)))
          (All-get_or_lt IsPacket sent j [] holds.legal (ground (arith, holds.counted))),
  )

-- The log after a call of `build`: a datagram that goes out adds its packet.
abbrev pub log_after : Option (List ℕ) → List ℕ → List (List ℕ) → List (List ℕ)
log_after none ifp sent = sent
log_after (some out) ifp sent = ifp ∷ sent

build-Holds_at :
    (s : Udptl) (sent : List (List ℕ)) (ifp : List ℕ) (cap : ℕ) (s' : Udptl) (o : Option (List ℕ))
    → Holds s sent
    → build s ifp cap ≡ (s', o)
    → Holds s' (log_after o ifp sent)
build-Holds_at s sent ifp cap s' none holds e = elim (build-eq-none s ifp cap s' e) [
  | inl same ↦ rw same holds
  | inr stashed ↦ rw stashed (stash-Holds s sent holds ifp)
]
build-Holds_at s sent ifp cap s' (some out) holds e =
    let (fits, became, _) = build-eq-some s ifp cap s' out e in
    rw became (sent-Holds s sent holds ifp fits)

-- Every call of `nf_udptl_build`, successful or refused, on any packet and buffer size, keeps the
-- ring of 16 slots a window on the log of all packets sent: the log grows by the packet if a
-- datagram is returned and is unchanged on -1, its length is the next sequence number, and the
-- last 15 packets of it are found in the slots behind the write position.
pub build-Holds :
    (s : Udptl) (sent : List (List ℕ)) (ifp : List ℕ) (cap : ℕ)
    → Holds s sent
    → Holds (build s ifp cap).0 (log_after (build s ifp cap).1 ifp sent)
build-Holds s sent ifp cap holds =
    build-Holds_at s sent ifp cap (build s ifp cap).0 (build s ifp cap).1 holds refl
