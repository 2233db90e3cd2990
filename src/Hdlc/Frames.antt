-- ===== src/Hdlc/Frames.antt =====
-- A whole frame of nf_hdlc.c through the receiver: what is stuffed and closed by a flag comes out
-- as the payload with a good verdict.
use nospandsp_fax.Common.{
  ℕ, ◌+◌, ◌-◌, ◌*◌, ◌/◌, ◌%◌, ◌≤◌, ◌<◌, ◌≡◌, refl, ap, sym, arith, ◌∙◌, true, false,
}
use nospandsp_fax.Common.{List, [], ◌∷◌, ◌++◌, ◌==◌, inl, inr, All}
use nospandsp_fax.Common.{
  append_assoc, append-nil, length, take-append_length, length-append, All-append, IsByte,
  data_bits, octet_bits,
}
use nospandsp_fax.Hdlc.Crc.{fcs, crc16-fcs}
use nospandsp_fax.Hdlc.Rx.{
  HdlcRx, Event, frame, put_bit, put_bits, data_bit, flag_or_abort, close_frame,
}
use nospandsp_fax.Hdlc.Line.{shifted, put_bit_lem}
use nospandsp_fax.Hdlc.Stuffing.{stuffed}
use nospandsp_fax.Hdlc.Octets.{take_bits, building, Collects, take_bits-Collects, take_bits_flag}
use nospandsp_fax.Hdlc.Destuffing.{
  put_bits-cons, put_bit_data, Run, Run-settled, Run-longer, IsBit, stuffed-Took,
}

-- A flag on the line.
abbrev pub flag_bits : List ℕ
flag_bits = 0 ∷ 1 ∷ 1 ∷ 1 ∷ 1 ∷ 1 ∷ 1 ∷ 0 ∷ []

pub put_bits-append :
    (xs ys : List ℕ) (s : HdlcRx)
    → put_bits s (xs ++ ys)
      ≡ ((put_bits (put_bits s xs).0 ys).0, (put_bits s xs).1 ++ (put_bits (put_bits s xs).0 ys).1)
unfolding put_bits
put_bits-append [] ys s = refl
put_bits-append (x ∷ xs) ys s = rw (put_bits-append xs ys (put_bit s x).0) (
    ap (λ (events : List Event). ((put_bits (put_bits (put_bit s x).0 xs).0 ys).0, events))
      (sym (append_assoc (put_bit s x).1 (put_bits (put_bit s x).0 xs).1 _)))

put_bits_none : (s : HdlcRx) → put_bits s [] ≡ (record (take_bits s []) { raw = s.raw }, [])
unfolding put_bits take_bits
put_bits_none s = refl

-- A one behind fewer than five ones.
one_more :
    (s : HdlcRx) (h n q : ℕ) (line bits : List ℕ)
    → h < 256
    → s.raw ≡ h * 256
    → n < 5
    → Run h n
    → put_bits (record (data_bit (record s { raw = 1 * 256 })) { raw = shifted h 1 * 256 }) line ≡ (
      record (take_bits
          (record (data_bit (record s { raw = 1 * 256 })) { raw = shifted h 1 * 256 })
          bits) { raw = q },
      [],
    )
    → put_bits s (1 ∷ line) ≡ (record (take_bits s (1 ∷ bits)) { raw = q }, [])
one_more s h n q line bits lt at few run rest =
    put_bits-cons s h 1 q line bits
      (put_bit_data s h 1 lt (omega arith) at (inl (Run-settled n h few run))) rest

-- The first seven bits of a flag are taken as data.
flag_data :
    (s : HdlcRx) (h : ℕ)
    → h < 256
    → (h % 32 == 31) ≡ false
    → s.raw ≡ h * 256
    → put_bits s (0 ∷ 1 ∷ 1 ∷ 1 ∷ 1 ∷ 1 ∷ 1 ∷ []) ≡ (
      record (take_bits s (0 ∷ 1 ∷ 1 ∷ 1 ∷ 1 ∷ 1 ∷ 1 ∷ [])) { raw = (h % 2 * 128 + 63) * 256 },
      [],
    )
flag_data s h lt settled at =
    let h1 = shifted h 0 in
    let h2 = shifted h1 1 in
    let h3 = shifted h2 1 in
    let h4 = shifted h3 1 in
    let h5 = shifted h4 1 in
    let h6 = shifted h5 1 in
    let h7 = shifted h6 1 in
    let r1 : Run h1 0 = omega arith in
    let r2 : Run h2 1 = Run-longer 0 h1 (omega arith) r1 in
    let r3 : Run h3 2 = Run-longer 1 h2 (omega arith) r2 in
    let r4 : Run h4 3 = Run-longer 2 h3 (omega arith) r3 in
    let r5 : Run h5 4 = Run-longer 3 h4 (omega arith) r4 in
    let r6 : Run h6 5 = Run-longer 4 h5 (omega arith) r5 in
    let last : h7 ≡ h % 2 * 128 + 63 = omega arith in
    let q = h7 * 256 in
    let at_last : (h % 2 * 128 + 63) * 256 ≡ q = ap (λ (n : ℕ). n * 256) (sym last) in
    rw at_last (
      put_bits-cons s h 0 q _ _ (put_bit_data s h 0 lt (omega arith) at (inl settled)) (
        one_more _ h1 0 q _ _ (omega arith) refl (omega arith) r1 (
          one_more _ h2 1 q _ _ (omega arith) refl (omega arith) r2 (
            one_more _ h3 2 q _ _ (omega arith) refl (omega arith) r3 (
              one_more _ h4 3 q _ _ (omega arith) refl (omega arith) r4 (
                one_more _ h5 4 q _ _ (omega arith) refl (omega arith) r5 (
                  put_bits-cons _ h6 1 q _ _
                    (put_bit_data _ h6 1 (omega arith) (omega arith) refl
                      (inr (omega (arith, r6), refl)))
                    (put_bits_none _))))))))

put_bits_one :
    (s t : HdlcRx) (b : ℕ) (events : List Event)
    → put_bit s b ≡ (t, events)
    → put_bits s (b ∷ []) ≡ (t, events)
unfolding put_bits
put_bits_one s t b events e = rw (e, append-nil events)

-- The zero that ends a flag.
put_bit_flag :
    (s : HdlcRx) (h : ℕ)
    → h < 2
    → s.raw ≡ (h * 128 + 63) * 256
    → put_bit s 0 ≡ flag_or_abort (record s { raw = 126 * 256 })
put_bit_flag s h lt at =
    let h' = h * 128 + 63 in
    let run : (h' % 32 == 31) ≡ true = ground arith in
    let kept : (h' / 32 % 2 == 0) ≡ false = ground arith in
    let six : (h' % 128 == 63) ≡ true = ground arith in
    let now : shifted h' 0 ≡ 126 = omega arith in
    put_bit_lem s h' 0 (omega arith) (omega arith) at ∙ rw (run, kept, six, now)

-- A flag closes a frame whose check octets are those of its payload.
flag_or_abort-frame :
    (u : HdlcRx) (payload : List ℕ)
    → u.raw ≡ 126 * 256
    → u.framing_ok_threshold ≤ u.flags_seen
    → u.num_bits ≡ 7
    → u.buffer ≡ payload ++ fcs payload
    → length payload ≤ 400
    → flag_or_abort u ≡ (record u { buffer = []; num_bits = 0 }, frame payload true ∷ [])
unfolding flag_or_abort close_frame
flag_or_abort-frame u payload at synced whole got short =
    let sized : length (payload ++ fcs payload) ≡ length payload + 2 =
      length-append payload (fcs payload) ∙ unfold fcs in refl in
    let cut : length payload + 2 - 2 ≡ length payload = omega arith in
    rw (at, whole, got, sized, cut, crc16-fcs payload, take-append_length payload (fcs payload))
      (ground (arith, synced, short))

pub data_bits-All-IsBit : (xs : List ℕ) → All IsBit (data_bits xs)
data_bits-All-IsBit [] = tt
data_bits-All-IsBit (x ∷ xs) =
    All-append IsBit (octet_bits x) (data_bits xs) (omega arith) (data_bits-All-IsBit xs)

-- A receiver between frames: synchronised, at an octet boundary, behind a line bit 0.
pub record Ready (s : HdlcRx) : Type 0 where
  pub h : ℕ
  pub octet : h < 256
  pub behind_zero : h % 2 ≡ 0
  pub history : s.raw ≡ h * 256
  pub empty : Collects s []

put_bits_flag :
    (s : HdlcRx) (h : ℕ) (payload : List ℕ)
    → h < 256
    → (h % 32 == 31) ≡ false
    → s.raw ≡ h * 256
    → Collects s (payload ++ fcs payload)
    → length payload ≤ 400
    → (s' : HdlcRx) × (put_bits s flag_bits ≡ (s', frame payload true ∷ [])) × Ready s'
put_bits_flag s h payload lt settled at c short =
    let (t, small, taken) = take_bits_flag s (payload ++ fcs payload) c in
    let last : HdlcRx = record (building s 7 t 1) { raw = (h % 2 * 128 + 63) * 256 } in
    let u : HdlcRx = record (building s 7 t 1) { raw = 126 * 256 } in
    let seven : put_bits s (0 ∷ 1 ∷ 1 ∷ 1 ∷ 1 ∷ 1 ∷ 1 ∷ []) ≡ (last, []) =
      rw taken at (flag_data s h lt settled at) in
    let closed : put_bit last 0
        ≡ (record u { buffer = []; num_bits = 0 }, frame payload true ∷ []) =
      put_bit_flag last (h % 2) (omega arith) refl
      ∙ flag_or_abort-frame u payload refl c.synced refl c.got short in
    (
      record u { buffer = []; num_bits = 0 },
      put_bits-append (0 ∷ 1 ∷ 1 ∷ 1 ∷ 1 ∷ 1 ∷ 1 ∷ []) (0 ∷ []) s
          ∙ rw (seven, put_bits_one last _ 0 _ closed) refl,
      record {
        h = 126;
        octet = omega arith;
        behind_zero = refl;
        history = refl;
        empty = record { synced = c.synced; fresh = refl; part = small; got = refl };
      },
    )

-- A synchronised receiver that gets any payload of up to 400 octets with its check octets, as
-- stuffed line bits behind a flag, and then a flag, hands up exactly that payload with a good
-- verdict, and is ready for the next frame.
pub put_bits-stuffed :
    (s : HdlcRx) (payload : List ℕ)
    → Ready s
    → All IsByte payload
    → length payload ≤ 400
    → (s' : HdlcRx) × (put_bits s (stuffed 0 (data_bits (payload ++ fcs payload)) ++ flag_bits)
        ≡ (s', frame payload true ∷ []))
      × Ready s'
put_bits-stuffed s payload ready bytes short =
    let octets = payload ++ fcs payload in
    let line = stuffed 0 (data_bits octets) in
    let took =
      stuffed-Took (data_bits octets) s ready.h 0 (data_bits-All-IsBit octets) ready.history
        ready.octet (omega arith) (omega (arith, ready.behind_zero)) in
    let sized : length octets ≡ length payload + 2 =
      length-append payload (fcs payload) ∙ unfold fcs in refl in
    let whole : All IsByte octets =
      All-append IsByte payload (fcs payload) bytes (unfold fcs in omega arith) in
    let collected = take_bits-Collects octets s [] ready.empty (omega arith) whole in
    let at_end : Collects (record (take_bits s (data_bits octets)) { raw = took.h * 256 }) octets =
      record {
        synced = collected.synced;
        fresh = collected.fresh;
        part = collected.part;
        got = collected.got;
      } in
    let (s', closed, again) =
      put_bits_flag _ took.h payload took.octet took.settled refl at_end short in
    (s', put_bits-append line flag_bits s ∙ rw (took.came, closed) refl, again)
