-- ===== src/Udptl/Recover.antt =====
-- Redundancy at work: a receiver that lost datagrams gets their packets from the next one.
use nospandsp_fax.Common.{ℕ, zero, suc, ◌+◌, ◌-◌, ◌%◌, ◌≤◌, ◌<◌, ◌≡◌, refl, ap, ◌∙◌, arith}
use nospandsp_fax.Common.{true, some, List, [], ◌∷◌, ◌++◌, length, All, get_or}
use nospandsp_fax.Common.{All-get_or_lt}
use Prim.Native.Nat.{min}
use native.Mathlib.Nat.{zero-add}
use nospandsp_fax.Udptl.Types.{Udptl}
use nospandsp_fax.Udptl.Encode.{slot_back, planned, stash, build, datagram}
use nospandsp_fax.Udptl.Decode.{Delivery, Datagram, parse, accept, rx, fill_gap, ahead}
use nospandsp_fax.Udptl.Codec.{IsPacket}
use nospandsp_fax.Udptl.Build.{parse-layout}
use nospandsp_fax.Udptl.Secondaries.{slots, slots-All, length-slots}
use nospandsp_fax.Udptl.Build.{datagram-IsLaidOut, IsStocked}
use nospandsp_fax.Udptl.History.{Holds, build-eq-some, stash-Holds, stash-IsStocked}

get_or-slots :
    (s : Udptl) (entry m k i : ℕ)
    → i < k
    → get_or (slots s entry m k) i [] ≡ get_or s.tx (slot_back entry (m + i)) []
get_or-slots s entry m zero i lt = absurd (omega arith)
get_or-slots s entry m (suc k) zero lt =
    ap (λ (n : ℕ). get_or s.tx (slot_back entry n) []) (omega arith)
get_or-slots s entry m (suc k) (suc i) lt =
    get_or-slots s entry (m + 1) k i (omega arith)
    ∙ ap (λ (n : ℕ). get_or s.tx (slot_back entry n) []) (omega arith)

-- `g` packets of the log that precede packet number `n`, oldest first, with their wire numbers.
abbrev pub missing : List (List ℕ) → ℕ → ℕ → List Delivery
missing sent n zero = []
missing sent n (suc i) =
    record { ifp = get_or sent i []; seq = (n - suc i) % 65536 } ∷ missing sent n i

fill_gap-missing :
    (sent secs : List (List ℕ)) (n g : ℕ)
    → ((i : ℕ) → i < g → get_or secs i [] ≡ get_or sent i [])
    → All IsPacket sent
    → length sent ≡ n
    → g ≤ length secs
    → g ≤ n
    → g ≤ 16
    → fill_gap (n % 65536) secs g ≡ missing sent n g
unfolding fill_gap
fill_gap-missing sent secs n zero same legal len a b c = refl
fill_gap-missing sent secs n (suc i) same legal len a b c = ground (
  arith,
  same i (omega arith),
  All-get_or_lt IsPacket sent i [] legal (omega arith),
  fill_gap-missing sent secs n i (λ j lt. same j (omega arith)) legal len (omega arith)
      (omega arith) (omega arith),
)

-- What `parse` makes of a datagram of `build`: its number, the packet, and a run of the log.
pub record Carries (sent : List (List ℕ)) (ifp : List ℕ) (d : Datagram) : Type 0 where
  pub numbered : d.number ≡ length sent % 65536
  pub packet : d.primary ≡ ifp
  pub few : length d.secs ≤ 15
  pub old : length d.secs ≤ length sent
  pub run : (i : ℕ) → i < length d.secs → get_or d.secs i [] ≡ get_or sent i []

module _ (t : Udptl) (sent : List (List ℕ)) (ifp : List ℕ) (holds : Holds t sent) where
  abbrev run_of : ℕ → Datagram
  run_of k = record {
    number = t.tx_seq_no % 65536;
    primary = ifp;
    secs = slots t (t.tx_seq_no % 65536 % 16) 0 k;
  }

  run_of-Carries : (k : ℕ) → k ≤ planned t → planned t ≤ 15 → Carries sent ifp (run_of k)
  run_of-Carries k a b = record {
    numbered = ap (λ (n : ℕ). n % 65536) holds.counted;
    packet = refl;
    few = omega (arith, length-slots t (t.tx_seq_no % 65536 % 16) 0 k);
    old = ground (arith, length-slots t (t.tx_seq_no % 65536 % 16) 0 k, holds.counted);
    run = λ i lt.
        let below : i < k = omega (arith, length-slots t (t.tx_seq_no % 65536 % 16) 0 k) in
        get_or-slots t (t.tx_seq_no % 65536 % 16) 0 k i below
        ∙ rw (zero-add i) (holds.recent i (omega arith) (ground (arith, holds.counted)));
  }

  laid_out-Carries :
      (cap : ℕ) (out : List ℕ)
      → planned t ≤ 15
      → IsPacket ifp
      → IsStocked t
      → datagram t ifp cap ≡ some out
      → (d : Datagram) × (parse out ≡ some d) × Carries sent ifp d
  laid_out-Carries cap out shallow fits stocked made =
      let laid = datagram-IsLaidOut t ifp cap out stocked fits made in
      (
        run_of laid.k,
        rw laid.shape (
            parse-layout t ifp laid.k fits (omega (arith, laid.at_most)) (
              slots-All t (t.tx_seq_no % 65536 % 16) 0 laid.k
                (λ j lt. stocked.1 j (omega (arith, laid.at_most))))),
        run_of-Carries laid.k laid.at_most shallow,
      )

planned-stash : (s : Udptl) (ifp : List ℕ) → s.red_entries ≤ 15 → planned (stash s ifp) ≤ 15
unfolding stash
planned-stash s ifp shallow = ground arith

-- Every datagram that `nf_udptl_build` returns with a redundancy of at most 15 is one that
-- `nf_udptl_rx` parses: it has the packet as its primary, under the number of packets sent before,
-- and its secondaries are the most recent packets of the log, newest first.
pub build-Carries :
    (s s' : Udptl) (sent : List (List ℕ)) (ifp out : List ℕ) (cap : ℕ)
    → Holds s sent
    → s.red_entries ≤ 15
    → build s ifp cap ≡ (s', some out)
    → (d : Datagram) × (parse out ≡ some d) × Carries sent ifp d
build-Carries s s' sent ifp out cap holds shallow e =
    let (fits, _, made) = build-eq-some s ifp cap s' out e in
    laid_out-Carries (stash s ifp) sent ifp (stash-Holds s sent holds ifp) cap out
      (planned-stash s ifp shallow) fits (stash-IsStocked s sent holds ifp shallow) made

pub accept-started :
    (r : Udptl) (d : Datagram) (g : ℕ)
    → r.rx_started ≡ true
    → ahead d.number r.rx_seq_no ≡ g
    → g < 0x8000
    → accept r d ≡ (
      record r { rx_seq_no = (d.number + 1) % 65536 },
      fill_gap d.number d.secs (min g (length d.secs))
          ++ (record { ifp = d.primary; seq = d.number } ∷ []),
    )
unfolding accept
accept-started r d g started e near = ground (arith, started, e, near)

rx-Carries :
    (r : Udptl) (sent : List (List ℕ)) (ifp out : List ℕ) (g : ℕ) (d : Datagram)
    → Carries sent ifp d
    → All IsPacket sent
    → parse out ≡ some d
    → r.rx_started ≡ true
    → g ≤ length sent
    → g < 0x8000
    → r.rx_seq_no ≡ (length sent - g) % 65536
    → rx r out
      ≡ some (
        record r { rx_seq_no = (length sent + 1) % 65536 },
        missing sent (length sent) (min g (length d.secs))
            ++ (record { ifp = ifp; seq = length sent % 65536 } ∷ []),
      )
unfolding rx
rx-Carries r sent ifp out g d c legal parsed started old near waits =
    rw (parsed, accept-started r d g started (omega (arith, c.numbered)) near)
      (ground (
        arith,
        c.numbered,
        c.packet,
        fill_gap-missing sent d.secs (length sent) (min g (length d.secs))
            (λ i lt. c.run i (omega arith)) legal refl (omega arith) (omega arith)
            (omega (arith, c.few)),
      ))

-- A sender with a redundancy of at most 15 builds the datagram of packet `n`, which parses with `k`
-- secondaries. A receiver that has its baseline and waits for packet `n - g`, where `g` is at most
-- `n` and below half the number space, hands up the last `min g k` of the packets in between, oldest
-- first and under their own numbers, then packet `n`, and waits for packet `n + 1`.
pub rx-build :
    (s s' r : Udptl) (sent : List (List ℕ)) (ifp out : List ℕ) (cap g : ℕ) (d : Datagram)
    → Holds s sent
    → s.red_entries ≤ 15
    → build s ifp cap ≡ (s', some out)
    → parse out ≡ some d
    → r.rx_started ≡ true
    → g ≤ length sent
    → g < 0x8000
    → r.rx_seq_no ≡ (length sent - g) % 65536
    → rx r out
      ≡ some (
        record r { rx_seq_no = (length sent + 1) % 65536 },
        missing sent (length sent) (min g (length d.secs))
            ++ (record { ifp = ifp; seq = length sent % 65536 } ∷ []),
      )
rx-build s s' r sent ifp out cap g d holds shallow e parsed started old near waits =
    let (d', parsed', c) = build-Carries s s' sent ifp out cap holds shallow e in
    let same : d' ≡ d = cc in
    rx-Carries r sent ifp out g d (rw same at c) holds.legal parsed started old near waits
