-- ===== src/Tests/Framing.antt =====
-- nf_hdlc.c at concrete inputs.
use nospandsp_fax.Common.{ℕ, ◌≡◌, refl, arith, List, [], ◌∷◌, ◌++◌}
use nospandsp_fax.Hdlc.Tx.{HdlcTx, tx_init, tx_frame, begin_frame}
use nospandsp_fax.Hdlc.Rx.{HdlcRx, rx_init, put_bits, frame}
use nospandsp_fax.Hdlc.Frames.{flag_bits, Ready}
use nospandsp_fax.Hdlc.Transfer.{tx_frame-put_bits}
use nospandsp_fax.Common.{true, ◌*◌}
use nospandsp_fax.Hdlc.Stuffing.{Sent}

-- A DCN frame.
abbrev pub dcn : List ℕ
dcn = 0xFF ∷ 0x13 ∷ 0xFB ∷ []

abbrev nothing_queued : ℕ → HdlcTx → ℕ × HdlcTx
nothing_queued u s = (u, s)

-- A receiver that has seen its two flags.
abbrev pub synchronised : HdlcRx
synchronised = record (rx_init 2) { raw = 126 * 256; flags_seen = 2; framing_ok_announced = true }

pub synchronised-Ready : Ready synchronised
unfolding rx_init
synchronised-Ready = record {
  h = 126;
  octet = omega arith;
  behind_zero = refl;
  history = refl;
  empty = record { synced = omega arith; fresh = refl; part = omega arith; got = refl };
}

tx_frame-put_bits_example :
    (line : List ℕ) × Sent nothing_queued 0 (begin_frame (tx_frame (tx_init 2) dcn).0) line
    × ((r' : HdlcRx) × (put_bits synchronised (line ++ flag_bits) ≡ (r', frame dcn true ∷ []))
        × Ready r')
tx_frame-put_bits_example =
    tx_frame-put_bits nothing_queued 0 (tx_init 2) synchronised dcn (unfold tx_init in refl)
      (omega arith) (omega arith) (omega arith) synchronised-Ready
