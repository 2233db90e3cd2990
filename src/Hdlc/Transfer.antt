-- ===== src/Hdlc/Transfer.antt =====
-- The sender and the receiver of nf_hdlc.c together: a queued frame on the line and back.
use nospandsp_fax.Common.{
  ℕ, ◌+◌, ◌≤◌, ◌≡◌, refl, arith, true, ◌∙◌, List, [], ◌∷◌, ◌++◌, length, All, IsByte,
}
use nospandsp_fax.Common.{data_bits, length-append}
use nospandsp_fax.Hdlc.Crc.{fcs}
use nospandsp_fax.Hdlc.Tx.{HdlcTx, tx_frame, begin_frame}
use nospandsp_fax.Hdlc.Rx.{HdlcRx, frame, put_bits}
use nospandsp_fax.Hdlc.Stuffing.{stuffed, Sending, Sent, stuffed-Sent}
use nospandsp_fax.Hdlc.Frames.{flag_bits, Ready, put_bits-stuffed}

begin_frame-Sending :
    (s : HdlcTx) (payload : List ℕ)
    → s.nbytes ≡ 0
    → 1 ≤ length payload
    → length payload ≤ 400
    → Sending (begin_frame (tx_frame s payload).0) 0 (data_bits (payload ++ fcs payload))
unfolding begin_frame tx_frame
begin_frame-Sending s payload free some_octets short =
    let sized : length (payload ++ fcs payload) ≡ length payload + 2 =
      length-append payload (fcs payload) ∙ unfold fcs in refl in
    record {
      active = refl;
      unstuffed = refl;
      run = refl;
      short = omega arith;
      in_octet = omega arith;
      whole = ground (arith, free, some_octets, short, sized);
      to_come = ground (arith, free, some_octets, short);
    }

-- Any payload of 1 to 400 octets that is queued on a free sender goes out, from the start of the
-- frame, as line bits that a ready receiver, behind them and a flag, hands up as that payload with
-- a good verdict; and the receiver is ready again.
pub tx_frame-put_bits :
    {U : Type 0} (underflow : U → HdlcTx → U × HdlcTx) (u : U) (s : HdlcTx) (r : HdlcRx)
    (payload : List ℕ)
    → s.nbytes ≡ 0
    → 1 ≤ length payload
    → length payload ≤ 400
    → All IsByte payload
    → Ready r
    → (line : List ℕ) × Sent underflow u (begin_frame (tx_frame s payload).0) line
      × ((r' : HdlcRx) × (put_bits r (line ++ flag_bits) ≡ (r', frame payload true ∷ []))
          × Ready r')
tx_frame-put_bits underflow u s r payload free some_octets short bytes ready = (
  stuffed 0 (data_bits (payload ++ fcs payload)),
  stuffed-Sent underflow u (data_bits (payload ++ fcs payload)) _ 0
      (begin_frame-Sending s payload free some_octets short),
  put_bits-stuffed r payload ready bytes short,
)
