-- ===== src/Tests/Backend.antt =====
-- nf_t38.c at concrete inputs.
use nospandsp_fax.Common.{ℕ, ◌≡◌, refl, arith, none, List, [], ◌∷◌, from_zero}
use nospandsp_fax.T38.Wire.{bitrev8, ifp_data}
use nospandsp_fax.T38.State.{T38, World, Iface}
use nospandsp_fax.T38.Control.{t38_init}
use nospandsp_fax.T38.Emit.{load_hdlc_frame}
use nospandsp_fax.T38.Receive.{fields, parse_ifp, rx_fields}
use nospandsp_fax.T38.Packets.{parse_ifp-ifp_data}
use nospandsp_fax.T38.Reassembly.{frame_fields, rx_fields-load_hdlc_frame}

parse_ifp-ifp_data_example :
    parse_ifp (ifp_data 8 6 (1 ∷ 2 ∷ [])) ≡ fields (record { ft = 6; payload = 1 ∷ 2 ∷ [] } ∷ [])
parse_ifp-ifp_data_example =
    parse_ifp-ifp_data 8 6 (1 ∷ 2 ∷ []) (omega arith) (omega arith) (omega arith)

-- A protocol layer that keeps the frames it gets.
abbrev keeps_frames : Iface (List (List ℕ))
keeps_frames = record {
  hdlc_accept = λ message verdict w. record w { user = message ∷ w.user };
  non_ecm_get_bit = λ w. (w, none);
  non_ecm_put_bit = λ b w. w;
  front_end_status = λ status w. w;
  timer_update = λ samples w. w;
  hdlc_get_frame = λ w. (w, []);
}

abbrev fresh : T38
fresh = t38_init (from_zero 3) (from_zero 1400) none none 0

abbrev quiet : World (List (List ℕ))
quiet = record { t38 = fresh; user = []; sent = [] }

abbrev dcn : List ℕ
dcn = 0xFF ∷ 0x13 ∷ 0xFB ∷ []

rx_fields-load_hdlc_frame_example :
    rx_fields keeps_frames (frame_fields ((0xFF ∷ 0xC8 ∷ []) ∷ (0xDF ∷ []) ∷ [])) quiet
    ≡ record { t38 = record fresh { rx_hdlc = [] }; user = dcn ∷ []; sent = [] }
rx_fields-load_hdlc_frame_example =
    rx_fields-load_hdlc_frame keeps_frames fresh quiet dcn ((0xFF ∷ 0xC8 ∷ []) ∷ (0xDF ∷ []) ∷ [])
      (omega arith) (omega arith) (omega arith) (unfold load_hdlc_frame bitrev8 in refl)
      (omega arith) (unfold t38_init in refl)
