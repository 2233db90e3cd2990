-- ===== src/Hdlc/Tx.antt =====
-- The sending half of nf_hdlc.c. The state of nf_hdlc_tx_t without the callback, which is a
-- parameter: `underflow` gets its own context `u` and the transmitter, into which it may queue the
-- next frame. A NULL callback is the function that changes nothing. A flag that C keeps as an int
-- is a Bool.
use nospandsp_fax.Common.{ℕ, ◌+◌, ◌-◌, Bool, true, false, List, [], ◌++◌, length, get_or}
use nospandsp_fax.Common.{bit, ltb, leb, ◌==◌, ◌&&◌, ◌||◌, not, if◌then◌else◌}
use nospandsp_fax.Hdlc.Crc.{fcs}

abbrev pub max_frame : ℕ
max_frame = 400

-- `nf_hdlc_tx_t`; the first `nbytes` octets of C's buffer are the list `buf`.
pub record HdlcTx : Type 0 where
  pub inter_frame_flags : ℕ
  pub buf : List ℕ
  pub nbytes : ℕ
  pub pos : ℕ
  pub bytebit : ℕ
  pub ones : ℕ
  pub stuff : Bool
  pub sending_data : Bool
  pub flag_bitpos : ℕ
  pub flag_octets : ℕ
  pub report_flag_underflow : Bool
  pub tx_end : Bool

-- `nf_hdlc_tx_init`
unfoldable pub tx_init : ℕ → HdlcTx
tx_init inter_frame_flags = record {
  inter_frame_flags = inter_frame_flags;
  buf = [];
  nbytes = 0;
  pos = 0;
  bytebit = 0;
  ones = 0;
  stuff = false;
  sending_data = false;
  flag_bitpos = 0;
  flag_octets = 0;
  report_flag_underflow = false;
  tx_end = false;
}

-- `nf_hdlc_tx_frame`: the new state, and whether the frame was taken (0, not -1).
unfoldable pub tx_frame : HdlcTx → List ℕ → HdlcTx × Bool
tx_frame s payload =
    if length payload == 0
    then (record s { tx_end = true }, true)
    else if ltb max_frame (length payload) || not (s.nbytes == 0)
    then (s, false)
    else (
      record s {
        buf = payload ++ fcs payload;
        nbytes = length payload + 2;
        pos = 0;
        bytebit = 0;
        tx_end = false;
      },
      true,
    )

-- `nf_hdlc_tx_flags`
unfoldable pub tx_flags : HdlcTx → ℕ → HdlcTx
tx_flags s count = record s { flag_octets = count; report_flag_underflow = true; tx_end = false }

-- `nf_hdlc_tx_restart`
unfoldable pub tx_restart : HdlcTx → HdlcTx
tx_restart s = record s {
  nbytes = 0;
  pos = 0;
  bytebit = 0;
  ones = 0;
  stuff = false;
  sending_data = false;
  flag_bitpos = 0;
  flag_octets = 0;
  report_flag_underflow = false;
  tx_end = false;
}

-- A result of `nf_hdlc_tx_get_bit`; `end_of_data` is NF_SIG_END_OF_DATA.
pub data TxBit : Type 0 where
  line_bit : ℕ → TxBit
  end_of_data : TxBit

-- `++s->bytebit == 8` moves on to the next octet.
unfoldable pub advance : HdlcTx → HdlcTx
advance s =
    if s.bytebit + 1 == 8
    then record s { bytebit = 0; pos = s.pos + 1 }
    else record s { bytebit = s.bytebit + 1 }

-- The counting of ones after a data bit.
unfoldable pub count_ones : HdlcTx → ℕ → HdlcTx
count_ones s b =
    if b == 0
    then record s { ones = 0 }
    else record s { ones = s.ones + 1; stuff = s.stuff || s.ones + 1 == 5 }

-- The branch of `nf_hdlc_tx_get_bit` that sends one bit of the frame.
unfoldable pub send_bit : HdlcTx → HdlcTx × TxBit
unfolding advance count_ones
send_bit s = let b = bit (get_or s.buf s.pos 0) s.bytebit in (count_ones (advance s) b, line_bit b)

-- A queued frame starts at the next octet boundary.
unfoldable pub begin_frame : HdlcTx → HdlcTx
begin_frame s = record s { sending_data = true; pos = 0; bytebit = 0; ones = 0; stuff = false }

module _ {U : Type 0} (underflow : U → HdlcTx → U × HdlcTx) where
  -- `s->flag_octets > 0 && --s->flag_octets == 0 && s->report_flag_underflow`, with its effects.
  unfoldable pub end_flag : U → HdlcTx → U × HdlcTx
  end_flag u s =
      let octets = s.flag_octets - 1 in
      let counted : HdlcTx = record s { flag_octets = octets } in
      let reported : HdlcTx = record counted { report_flag_underflow = false } in
      if s.flag_octets == 0
      then (u, s)
      else if octets == 0 && s.report_flag_underflow
      then (if s.nbytes == 0 then underflow u reported else (u, reported))
      else (u, counted)

  -- One bit of a flag, lowest bit first.
  unfoldable pub flag_bit : U → HdlcTx → U × HdlcTx × TxBit
  unfolding end_flag
  flag_bit u s =
      let b = bit 0x7E s.flag_bitpos in
      let (u', s') = end_flag u (record s { flag_bitpos = 0 }) in
      if s.flag_bitpos + 1 == 8
      then (u', s', line_bit b)
      else (u, record s { flag_bitpos = s.flag_bitpos + 1 }, line_bit b)

  -- From "flags / idle" on. The call of `nf_hdlc_tx_get_bit` on a frame just begun has data to
  -- send (`nbytes` is not 0) and nothing to stuff, so it goes straight to `send_bit`.
  unfoldable pub idle_bit : U → HdlcTx → U × HdlcTx × TxBit
  unfolding flag_bit send_bit begin_frame
  idle_bit u s =
      let (begun, b) = send_bit (begin_frame s) in
      if s.flag_bitpos == 0 && s.flag_octets == 0
      then (if not (s.nbytes == 0)
          then (u, begun, b)
          else if s.tx_end
          then (u, record s { tx_end = false }, end_of_data)
          else flag_bit u s)
      else flag_bit u s

  -- The frame is done: the callback may queue the next one, which follows after
  -- `inter_frame_flags` flags.
  unfoldable pub finish_frame : U → HdlcTx → U × HdlcTx
  finish_frame u s =
      let (u', s') = underflow u (record s {
        sending_data = false;
        flag_bitpos = 0;
        nbytes = 0;
        report_flag_underflow = false;
      }) in
      (u', record s' { flag_octets = if s'.nbytes == 0 then 3 else s'.inter_frame_flags })

  -- `nf_hdlc_tx_get_bit`
  unfoldable pub get_bit : U → HdlcTx → U × HdlcTx × TxBit
  unfolding idle_bit finish_frame
  get_bit u s =
      let (u', s') = finish_frame u s in
      let (s'', b) = send_bit s in
      if s.sending_data
      then (if s.stuff
          then (u, record s { stuff = false; ones = 0 }, line_bit 0)
          else if leb s.nbytes s.pos
          then idle_bit u' s'
          else (u, s'', b))
      else idle_bit u s
