-- ===== src/Udptl/Decode.antt =====
-- The receiving half of nf_udptl.c: `dec_length`, `dec_open_type`, `nf_udptl_rx`.
use nospandsp_fax.Common.{ℕ, zero, suc, ◌+◌, ◌-◌, ◌*◌, ◌%◌, Bool, true, false, Option}
use nospandsp_fax.Common.{
  none, some, List, [], ◌∷◌, ◌++◌, ◌&&◌, length, get_or, take, drop, ltb, leb,
}
use nospandsp_fax.Common.{◌==◌, bit, low_bits, if◌then◌else◌, ◌>>=◌, ◌>>◌, guard, not}
use nospandsp_fax.Udptl.Types.{Udptl, max_ifp, buf_slots}

-- `dec_length`: whether a fragment follows (the return value 1), the value, and what remains.
unfoldable pub dec_length : List ℕ → Option (Bool × ℕ × List ℕ)
dec_length [] = none
dec_length (b ∷ []) =
    if bit b 7 == 0
    then some (false, b, [])
    else if bit b 6 == 0
    then none
    else some (true, low_bits b 6 * 16384, [])
dec_length (b ∷ c ∷ r) =
    if bit b 7 == 0
    then some (false, b, c ∷ r)
    else if bit b 6 == 0
    then some (false, low_bits b 6 * 256 + c, r)
    else some (true, low_bits b 6 * 16384, c ∷ r)

-- `dec_open_type`: the object and what remains. A fragmented value is an error.
unfoldable pub dec_open_type : List ℕ → Option (List ℕ × List ℕ)
dec_open_type buf = do
  (fragment, count, r) ← dec_length buf
  guard (not fragment)
  guard (leb count (length r))
  some (take count r, drop count r)

-- The inner `for` loop: `count` open types.
unfoldable pub dec_objects : ℕ → List ℕ → Option (List (List ℕ) × List ℕ)
dec_objects zero buf = some ([], buf)
dec_objects (suc count) buf = do
  (object, r) ← dec_open_type buf
  (objects, r') ← dec_objects count r
  some (object ∷ objects, r')

-- The `do … while (stat > 0)` loop over groups of secondaries. Every round reads an octet, so
-- one more than the octets that remain is enough fuel.
unfoldable pub dec_groups : ℕ → List (List ℕ) → List ℕ → Option (List (List ℕ))
dec_groups zero secs buf = none
dec_groups (suc fuel) secs buf = do
  (fragment, count, r) ← dec_length buf
  guard (leb (length secs + count) buf_slots)
  (objects, r') ← dec_objects count r
  let more = dec_groups fuel (secs ++ objects) r'
  if fragment then more else some (secs ++ objects)

-- One call of the handler `fn`.
pub record Delivery : Type 0 where
  pub ifp : List ℕ
  pub seq : ℕ

-- The loop `for (m = gap; m >= 1; m--)` that fills a gap, oldest packet first.
unfoldable pub fill_gap : ℕ → List (List ℕ) → ℕ → List Delivery
fill_gap seq secs zero = []
fill_gap seq secs (suc idx) =
    let rest = fill_gap seq secs idx in
    let packet = get_or secs idx [] in
    if ltb idx (length secs) && ltb 0 (length packet)
    then record { ifp = packet; seq = (seq + 65536 - suc idx) % 65536 } ∷ rest
    else rest

-- A parsed datagram: its sequence number, the primary and the secondaries.
pub record Datagram : Type 0 where
  pub number : ℕ
  pub primary : List ℕ
  pub secs : List (List ℕ)

-- The part of `nf_udptl_rx` before the state is touched.
unfoldable pub parse : List ℕ → Option Datagram
parse [] = none
parse (hi ∷ []) = none
parse (hi ∷ lo ∷ r) = do
  (first, r') ← dec_open_type r
  guard (leb (length first) max_ifp)
  (type, r'') ← elim r' [ [] ↦ none | t ∷ u ↦ some (t, u) ]
  found ← (if bit type 7 == 0 then dec_groups (length r'' + 1) [] r'' else some [])
  some (record { number = hi * 256 + lo; primary = first; secs = found })

-- The first datagram sets the baseline.
unfoldable pub start : Udptl → ℕ → Udptl
start s seq = if s.rx_started then s else record s { rx_started = true; rx_seq_no = seq }

-- `(seq - s->rx_seq_no) & 0xFFFF`, with both numbers below 65536.
abbrev pub ahead : ℕ → ℕ → ℕ
ahead seq expected = (seq + 65536 - expected) % 65536

-- The part of `nf_udptl_rx` after the parse.
unfoldable pub accept : Udptl → Datagram → Udptl × List Delivery
unfolding start
accept s d =
    let s' = start s d.number in
    let fwd = ahead d.number s'.rx_seq_no in
    let gap = if ltb (length d.secs) fwd then length d.secs else fwd in
    if leb 0x8000 fwd then (s', []) else (
      record s' { rx_seq_no = (d.number + 1) % 65536 },
      fill_gap d.number d.secs gap ++ (record { ifp = d.primary; seq = d.number } ∷ []),
    )

-- `nf_udptl_rx`: `none` is -1, which leaves the state alone and calls nothing; otherwise the new
-- state and the calls of `fn` in order.
unfoldable pub rx : Udptl → List ℕ → Option (Udptl × List Delivery)
unfolding parse accept
rx s buf = do d ← parse buf; some (accept s d)
