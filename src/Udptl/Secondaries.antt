-- ===== src/Udptl/Secondaries.antt =====
-- The secondaries that the loop of `nf_udptl_build` adds.
use nospandsp_fax.Common.{ℕ, zero, suc, ◌+◌, ◌≤◌, ◌<◌, ◌≡◌, refl, ap, ◌∙◌, arith}
use nospandsp_fax.Common.{some, List, [], ◌∷◌, ◌++◌, append_assoc}
use nospandsp_fax.Common.{append-nil, length, length-append, All, get_or, set, set-append, u8, ltb}
use nospandsp_fax.Common.{◌⊎◌, inl, inr, Option-cases, Bool-cases}
use native.Mathlib.Nat.{add-zero}
use nospandsp_fax.Udptl.Types.{Udptl}
use nospandsp_fax.Udptl.Encode.{enc_open_type, slot_back, add_secondaries}
use nospandsp_fax.Udptl.Codec.{wire_of, wires, IsPacket, enc_open_type-eq-some}
use nospandsp_fax.Udptl.Codec.{enc_open_type-eq-none, length-wire_of}

-- The `k` history slots behind `entry`, from the `m`-th on.
abbrev pub slots : Udptl → ℕ → ℕ → ℕ → List (List ℕ)
slots s entry m zero = []
slots s entry m (suc k) = get_or s.tx (slot_back entry m) [] ∷ slots s entry (m + 1) k

pub length-slots : (s : Udptl) (entry m k : ℕ) → length (slots s entry m k) ≡ k
length-slots s entry m zero = refl
length-slots s entry m (suc k) = ap suc (length-slots s entry (m + 1) k)

pub slots-All :
    (s : Udptl) (entry m k : ℕ)
    → ((j : ℕ) → j < m + k → IsPacket (get_or s.tx (slot_back entry j) []))
    → All IsPacket (slots s entry m k)
slots-All s entry m zero h = tt
slots-All s entry m (suc k) h =
    (h m (omega arith), slots-All s entry (m + 1) k (λ j q. h j (omega arith)))

-- `rest` went out behind `head`, a count octet and `tail`, with `k` of the `left` secondaries;
-- fewer than planned only where the next one is too long for the buffer or for the peer.
pub record Added (s : Udptl) (cap entry m left : ℕ) (head tail result : List ℕ) : Type 0 where
  pub k : ℕ
  pub at_most : k ≤ left
  pub shape : result ≡ head ++ ((m + k) ∷ (tail ++ wires (slots s entry m k)))
  pub within : (k ≡ 0) ⊎ ((length result ≤ cap) × (length result ≤ s.far_max_datagram))
  pub full :
      (k ≡ left)
      ⊎ ((cap < length result + 3 + length (get_or s.tx (slot_back entry (m + k)) []))
          ⊎ (s.far_max_datagram
              < length result + 3 + length (get_or s.tx (slot_back entry (m + k)) [])))

module _ (s : Udptl) (cap entry : ℕ) (head : List ℕ) where
  abbrev slot : ℕ → List ℕ
  slot j = get_or s.tx (slot_back entry j) []

  pub length-parts :
      (c : ℕ) (tail : List ℕ) → length (head ++ (c ∷ tail)) ≡ length head + 1 + length tail
  length-parts c tail = omega (arith, length-append head (c ∷ tail))

  -- The loop leaves off before its next secondary, which does not fit.
  Added-none :
      (m left c : ℕ) (tail : List ℕ)
      → m < 128
      → (cap < length (head ++ (c ∷ tail)) + 3 + length (slot m))
        ⊎ (s.far_max_datagram < length (head ++ (c ∷ tail)) + 3 + length (slot m))
      → Added s cap entry m left head tail (set (head ++ (c ∷ tail)) (length head) (u8 m))
  Added-none m left c tail small why = record {
    k = 0;
    at_most = omega arith;
    shape =
        rw (set-append head c (u8 m) tail, append-nil tail)
          (ap (λ (n : ℕ). head ++ (n ∷ tail)) (omega arith));
    within = inl refl;
    full = inr (
        rw (set-append head c (u8 m) tail)
          (rw (add-zero m) (omega (arith, length-parts c tail, length-parts (u8 m) tail))));
  }

  -- One secondary is taken, and the loop goes on.
  Added-more :
      (m left c : ℕ) (tail result : List ℕ)
      → length (head ++ (c ∷ (tail ++ wire_of (slot m)))) ≤ cap
      → length (head ++ (c ∷ (tail ++ wire_of (slot m)))) ≤ s.far_max_datagram
      → Added s cap entry (m + 1) left head (tail ++ wire_of (slot m)) result
      → Added s cap entry m (suc left) head tail result
  Added-more m left c tail result in_cap in_far a = record {
    k = suc a.k;
    at_most = omega (arith, a.at_most);
    shape =
        a.shape
        ∙ rw (regroup a.k) (
            ap (λ l. head ++ ((m + suc a.k) ∷ l))
              (append_assoc tail (wire_of (slot m)) (wires (slots s entry (m + 1) a.k))));
    within = inr (
        ground (
          arith,
          a.within,
          no_more a.k,
          lengths a.k a.shape,
          length-parts c (tail ++ wire_of (slot m)),
        ));
    full = rw (← regroup a.k) (ground (arith, a.full));
  }
    where
      regroup : (k : ℕ) → m + 1 + k ≡ m + suc k
      regroup k = omega arith

      no_more : (k : ℕ) → k ≡ 0 → length (wires (slots s entry (m + 1) k)) ≡ 0
      no_more zero e = refl
      no_more (suc k) e = absurd (omega arith)

      lengths :
          (k : ℕ)
          → result
            ≡ head ++ ((m + 1 + k) ∷ (tail ++ wire_of (slot m) ++ wires (slots s entry (m + 1) k)))
          → length result
            ≡ length head
              + 1
              + length (tail ++ wire_of (slot m))
              + length (wires (slots s entry (m + 1) k))
      lengths k e = rw e (
          rw length-append (
            omega
              (arith, length-append (tail ++ wire_of (slot m)) (wires (slots s entry (m + 1) k)))))

  pub add_secondaries_lem :
      (left m c : ℕ) (tail : List ℕ)
      → c ≡ m + left
      → c < 128
      → ((j : ℕ) → j < m + left → IsPacket (slot j))
      → Added s cap entry m left head tail
          (add_secondaries s cap entry (length head) left m (head ++ (c ∷ tail)))
  unfolding add_secondaries
  add_secondaries_lem zero m c tail e small ok = record {
    k = 0;
    at_most = omega arith;
    shape = rw append-nil (ap (λ (n : ℕ). head ++ (n ∷ tail)) (omega arith));
    within = inl refl;
    full = inl refl;
  }
  add_secondaries_lem (suc left) m c tail e small ok =
      elim (Option-cases (enc_open_type (head ++ (c ∷ tail)) cap (slot m))) [
        | inl refused ↦
            rw (refused, add_secondaries)
              (Added-none m (suc left) c tail (omega arith)
                (inl (enc_open_type-eq-none _ cap (slot m) fits.0 (omega (arith, fits)) refused)))
        | inr (out', taken) ↦
            rw (taken, add_secondaries)
              (rw (wrote out' taken) (elim (Bool-cases (ltb s.far_max_datagram (length (longer)))) [
                | inl over ↦
                    rw over (
                      Added-none m (suc left) c tail (omega arith)
                        (inr (ground (arith, longer_le))))
                | inr below ↦ rw below (
                    Added-more m left c tail _ (room out' taken) (ground arith) (
                      add_secondaries_lem left (m + 1) c (tail ++ wire_of (slot m)) (omega arith)
                        small (λ j q. ok j (omega arith))))
              ]))
      ]
    where
      fits : IsPacket (slot m)
      fits = ok m (omega arith)

      longer : List ℕ
      longer = head ++ (c ∷ (tail ++ wire_of (slot m)))

      wrote :
          (out' : List ℕ)
          → enc_open_type (head ++ (c ∷ tail)) cap (slot m) ≡ some out'
          → out' ≡ longer
      wrote out' taken =
          (enc_open_type-eq-some _ cap (slot m) out' fits.0 (omega (arith, fits)) taken).0
          ∙ append_assoc head (c ∷ tail) (wire_of (slot m))

      longer_le : length longer ≤ length (head ++ (c ∷ tail)) + 2 + length (slot m)
      longer_le = omega (
        arith,
        length-wire_of (slot m) (omega (arith, fits)),
        length-append tail (wire_of (slot m)),
        length-parts c tail,
        length-parts c (tail ++ wire_of (slot m)),
      )

      room :
          (out' : List ℕ)
          → enc_open_type (head ++ (c ∷ tail)) cap (slot m) ≡ some out'
          → length longer ≤ cap
      room out' taken = omega (
        arith,
        longer_le,
        (enc_open_type-eq-some _ cap (slot m) out' fits.0 (omega (arith, fits)) taken).1,
      )
