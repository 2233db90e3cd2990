-- ===== src/Hdlc/Stuffing.antt =====
-- Zero-bit stuffing, and that the sender of nf_hdlc.c does it.
use nospandsp_fax.Common.{ℕ, zero, suc, ◌+◌, ◌<◌, ◌≡◌, refl, ◌∙◌, arith, true, false, sym}
use nospandsp_fax.Common.{List, [], ◌∷◌, map, bit, length, get_or, drop, data_bits}
use nospandsp_fax.Common.{◌==◌, if◌then◌else◌, Bool-cases, inl, inr}
use nospandsp_fax.Hdlc.Tx.{HdlcTx, TxBit, line_bit, get_bit, send_bit, advance, count_ones}

-- The line bits of a frame, with a 0 after each run of five ones; `ones` counts the ones of the run
-- that has begun.
unfoldable pub stuffed : ℕ → List ℕ → List ℕ
stuffed ones [] = []
stuffed ones (b ∷ bs) =
    let zero_next = stuffed 0 bs in
    let one_next = stuffed (ones + 1) bs in
    if b == 0 then b ∷ zero_next else if ones + 1 == 5 then b ∷ 0 ∷ zero_next else b ∷ one_next

-- The bits of the frame that are still to be sent.
abbrev pub remaining : HdlcTx → List ℕ
remaining s = drop s.bytebit (data_bits (drop s.pos s.buf))

drop-cons :
    (n x : ℕ) (xs os : List ℕ)
    → drop n xs ≡ x ∷ os
    → (get_or xs n 0 ≡ x) × (drop (n + 1) xs ≡ os) × (n < length xs)
drop-cons zero x [] os e = absurd (cc e)
drop-cons zero x (y ∷ xs) os e = ground (arith, e)
drop-cons (suc n) x [] os e = absurd (cc e)
drop-cons (suc n) x (y ∷ xs) os e = ground (arith, drop-cons n x xs os e)

-- Taking one bit off a run of octets.
next_bit :
    (k x : ℕ) (os : List ℕ)
    → k < 8
    → drop k (data_bits (x ∷ os)) ≡ bit x k ∷ drop (k + 1) (data_bits (x ∷ os))
next_bit zero x os h = refl
next_bit (suc zero) x os h = refl
next_bit (suc (suc zero)) x os h = refl
next_bit (suc (suc (suc zero))) x os h = refl
next_bit (suc (suc (suc (suc zero)))) x os h = refl
next_bit (suc (suc (suc (suc (suc zero))))) x os h = refl
next_bit (suc (suc (suc (suc (suc (suc zero)))))) x os h = refl
next_bit (suc (suc (suc (suc (suc (suc (suc zero))))))) x os h = refl
next_bit (suc (suc (suc (suc (suc (suc (suc (suc k)))))))) x os h = absurd (omega arith)

last_bit : (k x : ℕ) (os : List ℕ) → k ≡ 8 → drop k (data_bits (x ∷ os)) ≡ data_bits os
last_bit k x os e = rw e

drop-nil : (k : ℕ) → drop k (data_bits []) ≡ []
drop-nil zero = refl
drop-nil (suc k) = refl

∷_head : {x y : ℕ} {xs ys : List ℕ} → x ∷ xs ≡ y ∷ ys → x ≡ y
∷_head e = cc

∷_tail : {x y : ℕ} {xs ys : List ℕ} → x ∷ xs ≡ y ∷ ys → xs ≡ ys
∷_tail e = cc

-- The sender is inside a frame: `ones` ones in a row are out, `bits` are still to come.
pub record Sending (s : HdlcTx) (ones : ℕ) (bits : List ℕ) : Type 0 where
  pub active : s.sending_data ≡ true
  pub unstuffed : s.stuff ≡ false
  pub run : s.ones ≡ ones
  pub short : ones < 5
  pub in_octet : s.bytebit < 8
  pub whole : s.nbytes ≡ length s.buf
  pub to_come : remaining s ≡ bits

-- What a state with bits to come shows of the next bit.
remaining-cons :
    (s : HdlcTx) (b : ℕ) (bs os : List ℕ)
    → s.bytebit < 8
    → drop s.pos s.buf ≡ os
    → drop s.bytebit (data_bits os) ≡ b ∷ bs
    → (bit (get_or s.buf s.pos 0) s.bytebit ≡ b)
      × (s.pos < length s.buf)
      × (remaining (advance s) ≡ bs)
      × ((advance s).bytebit < 8)
unfolding advance
remaining-cons s b bs [] h at e = absurd (cc (drop-nil s.bytebit, e))
remaining-cons s b bs (x ∷ os) h at e =
    let split : bit x s.bytebit ∷ drop (s.bytebit + 1) (data_bits (x ∷ os)) ≡ b ∷ bs =
      sym (next_bit s.bytebit x os h) ∙ e in
    let tail : drop (s.bytebit + 1) (data_bits (x ∷ os)) ≡ bs = ∷_tail split in
    let head : bit x s.bytebit ≡ b = ∷_head split in
    let (here, rest, inside) = drop-cons s.pos x s.buf os at in
    elim (Bool-cases (s.bytebit + 1 == 8)) [
      | inl last ↦ rw last (
        rw here head,
        inside,
        rw rest (sym (last_bit (s.bytebit + 1) x os (ground arith)) ∙ tail),
        omega arith,
      )
      | inr inner ↦ rw inner (rw here head, inside, rw at tail, ground arith)
    ]

module _ {U : Type 0} (underflow : U → HdlcTx → U × HdlcTx) (u : U) where
  -- A stuffed zero.
  get_bit_stuff :
      (s : HdlcTx)
      → s.sending_data ≡ true
      → s.stuff ≡ true
      → get_bit underflow u s ≡ (u, record s { stuff = false; ones = 0 }, line_bit 0)
  unfolding get_bit
  get_bit_stuff s active pending = rw (active, pending)

  -- A bit of the frame.
  get_bit_data :
      (s : HdlcTx) (ones b : ℕ) (bs : List ℕ)
      → Sending s ones (b ∷ bs)
      → get_bit underflow u s ≡ (u, count_ones (advance s) b, line_bit b)
  unfolding get_bit send_bit
  get_bit_data s ones b bs h =
      let (here, inside, _, _) =
        remaining-cons s b bs (drop s.pos s.buf) h.in_octet refl h.to_come in
      rw (h.active, h.unstuffed, here) (ground (arith, inside, h.whole))

-- `n` bits off the line.
unfoldable pub transmit :
    {U : Type 0} → (U → HdlcTx → U × HdlcTx) → ℕ → U → HdlcTx → U × HdlcTx × List TxBit
transmit underflow zero u s = (u, s, [])
transmit underflow (suc n) u s =
    let (u', s', b) = get_bit underflow u s in
    let (u'', s'', bs) = transmit underflow n u' s' in (u'', s'', b ∷ bs)

advance-Sending :
    (s : HdlcTx) (ones b : ℕ) (bs : List ℕ) → Sending s ones (b ∷ bs) → Sending (advance s) ones bs
advance-Sending s ones b bs h =
    let (_, _, rest, octet) = remaining-cons s b bs (drop s.pos s.buf) h.in_octet refl h.to_come in
    record {
      active = unfold advance in ground (arith, h.active);
      unstuffed = unfold advance in ground (arith, h.unstuffed);
      run = unfold advance in ground (arith, h.run);
      short = h.short;
      in_octet = octet;
      whole = unfold advance in ground (arith, h.whole);
      to_come = rest;
    }

module _ (t : HdlcTx) (ones b : ℕ) (bs : List ℕ) (h : Sending t ones bs) where
  Sending-zero : (b == 0) ≡ true → Sending (count_ones t b) 0 bs
  unfolding count_ones
  Sending-zero e = rw e (record {
    active = h.active;
    unstuffed = h.unstuffed;
    run = refl;
    short = omega arith;
    in_octet = h.in_octet;
    whole = h.whole;
    to_come = h.to_come;
  })

  Sending-one : (b == 0) ≡ false → ones + 1 < 5 → Sending (count_ones t b) (ones + 1) bs
  unfolding count_ones
  Sending-one e few = rw e (record {
    active = h.active;
    unstuffed = ground (arith, h.unstuffed, h.run);
    run = omega (arith, h.run);
    short = few;
    in_octet = h.in_octet;
    whole = h.whole;
    to_come = h.to_come;
  })

  Sending-stuffed :
      (b == 0) ≡ false
      → ones + 1 ≡ 5
      → ((count_ones t b).sending_data ≡ true)
        × ((count_ones t b).stuff ≡ true)
        × Sending (record (count_ones t b) { stuff = false; ones = 0 }) 0 bs
  unfolding count_ones
  Sending-stuffed e five = rw e (
    h.active,
    ground (arith, h.unstuffed, h.run),
    record {
      active = h.active;
      unstuffed = refl;
      run = refl;
      short = omega arith;
      in_octet = h.in_octet;
      whole = h.whole;
      to_come = h.to_come;
    },
  )

-- A run of the line: `line` comes out, and the frame has nothing more to send.
pub record Sent {U : Type 0} (underflow : U → HdlcTx → U × HdlcTx) (u : U) (s : HdlcTx)
    (line : List ℕ) : Type 0 where
  pub last : HdlcTx
  pub ones : ℕ
  pub done : Sending last ones []
  pub came : transmit underflow (length line) u s ≡ (u, last, map line_bit line)

module _ {U : Type 0} (underflow : U → HdlcTx → U × HdlcTx) (u : U) where
  Sent-cons :
      (s s' : HdlcTx) (b : ℕ) (line : List ℕ)
      → get_bit underflow u s ≡ (u, s', line_bit b)
      → Sent underflow u s' line
      → Sent underflow u s (b ∷ line)
  Sent-cons s s' b line step rest = record {
    last = rest.last;
    ones = rest.ones;
    done = rest.done;
    came = unfold transmit in rw (step, rest.came);
  }

  -- Inside a frame the sender puts the remaining bits on the line, stuffed.
  pub stuffed-Sent :
      (bits : List ℕ) (s : HdlcTx) (ones : ℕ)
      → Sending s ones bits
      → Sent underflow u s (stuffed ones bits)
  unfolding stuffed
  stuffed-Sent [] s ones h = record {
    last = s;
    ones = ones;
    done = h;
    came = unfold transmit in refl;
  }
  stuffed-Sent (b ∷ bs) s ones h =
      let t = advance-Sending s ones b bs h in
      let step = get_bit_data underflow u s ones b bs h in
      elim (Bool-cases (b == 0)) [
        | inl z ↦
            rw z (
              Sent-cons s _ b _ step (stuffed-Sent bs _ 0 (Sending-zero (advance s) ones b bs t z)))
        | inr o ↦ elim (Bool-cases (ones + 1 == 5)) [
          | inl five ↦
              let (active, pending, after) =
                Sending-stuffed (advance s) ones b bs t o (ground (arith, five)) in
              rw (o, five)
                (Sent-cons s _ b _ step (
                  Sent-cons _ _ 0 _ (get_bit_stuff underflow u _ active pending)
                    (stuffed-Sent bs _ 0 after)))
          | inr few ↦
              rw (o, few)
                (Sent-cons s _ b _ step (
                  stuffed-Sent bs _ (ones + 1)
                    (Sending-one (advance s) ones b bs t o (ground (arith, few, h.short)))))
        ]
      ]
