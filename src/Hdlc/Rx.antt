-- ===== src/Hdlc/Rx.antt =====
-- The receiving half of nf_hdlc.c. The calls of the handler are the events that a step returns;
-- a handler is always set by the users of the receiver.
use nospandsp_fax.Common.{ℕ, ◌+◌, ◌-◌, ◌*◌, ◌/◌, Bool, true, false, List, [], ◌∷◌, ◌++◌}
use nospandsp_fax.Common.{bit_and, bit_or, u8, u16, ltb, leb, ◌==◌, ◌&&◌, not, if◌then◌else◌}
use nospandsp_fax.Common.{length, take}
use nospandsp_fax.Hdlc.Crc.{crc16}
use nospandsp_fax.Hdlc.Tx.{max_frame}

-- The statuses that pass through the handler: the NF_SIG_* codes below zero.
pub data Signal : Type 0 where
  framing_ok abort : Signal
  line_status : ℕ → Signal

-- One call of the handler: a status (a NULL message), or a frame with the verdict on it.
pub data Event : Type 0 where
  status : Signal → Event
  frame : List ℕ → Bool → Event

-- `nf_hdlc_rx_t`; the first `len` octets of C's buffer are the list `buffer`.
pub record HdlcRx : Type 0 where
  pub framing_ok_threshold : ℕ
  pub raw : ℕ
  pub flags_seen : ℕ
  pub framing_ok_announced : Bool
  pub byte_in_progress : ℕ
  pub num_bits : ℕ
  pub buffer : List ℕ

-- `nf_hdlc_rx_init`
unfoldable pub rx_init : ℕ → HdlcRx
rx_init threshold = record {
  framing_ok_threshold = if ltb threshold 1 then 1 else threshold;
  raw = 0;
  flags_seen = 0;
  framing_ok_announced = false;
  byte_in_progress = 0;
  num_bits = 0;
  buffer = [];
}

-- `if (flags_seen < threshold - 1) flags_seen = 0; else flags_seen = threshold - 1;`
unfoldable pub set_back : HdlcRx → ℕ
set_back s = if ltb s.flags_seen (s.framing_ok_threshold - 1) then 0 else s.framing_ok_threshold - 1

-- The frame that a flag closes, if any octet came in.
unfoldable pub close_frame : HdlcRx → List Event
close_frame s =
    let len = length s.buffer in
    if len == 0
    then []
    else if s.num_bits == 7 && (leb 2 len && leb len (max_frame + 2))
    then frame (take (len - 2) s.buffer) (crc16 s.buffer 0xFFFF == 0xF0B8) ∷ []
    else frame (take (if leb 2 len then len - 2 else 0) s.buffer) false ∷ []

-- A flag before synchronisation: flags must come back to back.
unfoldable pub sync_flag : HdlcRx → HdlcRx × List Event
unfolding set_back
sync_flag s =
    let seen =
      if not (s.flags_seen == s.framing_ok_threshold - 1) && not (s.num_bits == 7)
      then set_back s
      else s.flags_seen in
    if leb s.framing_ok_threshold (seen + 1) && not s.framing_ok_announced
    then (record s { flags_seen = seen + 1; framing_ok_announced = true }, status framing_ok ∷ [])
    else (record s { flags_seen = seen + 1 }, [])

-- `rx_flag_or_abort`
unfoldable pub flag_or_abort : HdlcRx → HdlcRx × List Event
unfolding set_back sync_flag close_frame
flag_or_abort s =
    let (s', events) : HdlcRx × List Event =
      if not (bit_and s.raw 0x0100 == 0)
      then (record s { flags_seen = set_back s }, status abort ∷ [])
      else if leb s.framing_ok_threshold s.flags_seen
      then (s, close_frame s)
      else sync_flag s in
    (record s' { buffer = []; num_bits = 0 }, events)

-- The completed octet goes into the buffer; an overlong frame is given up.
unfoldable pub store_octet : HdlcRx → HdlcRx
store_octet s =
    if ltb (length s.buffer) (max_frame + 2)
    then record s { buffer = s.buffer ++ (u8 s.byte_in_progress ∷ []); num_bits = 0 }
    else record s { buffer = []; flags_seen = s.framing_ok_threshold - 1; num_bits = 0 }

-- A bit that is neither stuffed nor the end of a flag.
unfoldable pub data_bit : HdlcRx → HdlcRx
unfolding store_octet
data_bit s =
    let counted : HdlcRx = record s { num_bits = s.num_bits + 1 } in
    let shifted : HdlcRx = record counted {
      byte_in_progress = bit_or s.byte_in_progress (bit_and s.raw 0x100) / 2;
    } in
    if ltb s.flags_seen s.framing_ok_threshold
    then counted
    else if s.num_bits + 1 == 8
    then store_octet shifted
    else shifted

-- `nf_hdlc_rx_put_bit` on a bit.
unfoldable pub put_bit : HdlcRx → ℕ → HdlcRx × List Event
unfolding flag_or_abort data_bit
put_bit s b =
    let s' : HdlcRx = record s { raw = u16 (bit_or (s.raw * 2) (bit_and (b * 256) 0x100)) } in
    if bit_and s'.raw 0x3E00 == 0x3E00
    then (if bit_and s'.raw 0x4100 == 0
        then (s', [])
        else if bit_and s'.raw 0xFE00 == 0x7E00
        then flag_or_abort s'
        else (data_bit s', []))
    else (data_bit s', [])

-- `nf_hdlc_rx_put_bit` on a negative value: the status is passed on.
unfoldable pub put_status : HdlcRx → Signal → HdlcRx × List Event
put_status s code = (s, status code ∷ [])

-- A run of bits.
unfoldable pub put_bits : HdlcRx → List ℕ → HdlcRx × List Event
put_bits s [] = (s, [])
put_bits s (b ∷ bs) =
    let (s', events) = put_bit s b in let (s'', more) = put_bits s' bs in (s'', events ++ more)
