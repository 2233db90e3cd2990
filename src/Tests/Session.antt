-- ===== src/Tests/Session.antt =====
-- nf_t30.c at concrete inputs.
use nospandsp_fax.Common.{ℕ, ◌≡◌, ◌≢◌, refl, arith, Bool, true, false, Option, none, some, List}
use nospandsp_fax.Common.{[], ◌∷◌, ◌++◌, inl, replicate, get_or}
use nospandsp_fax.T4.Encode.{t6}
use nospandsp_fax.T30.Fcf
use nospandsp_fax.T30.Tables.{Modem, v29, v27ter, fine, next_allowed_fb}
use nospandsp_fax.T30.State.{
  T30, Config, Outside, bilevel, gray, ok, a_recv_ecm, a_recv_tcf, a_send_cfr, c_wait_mcf, st_done,
  carrier_down, err_timeout, send_hdlc, a_send_ctr,
}
use nospandsp_fax.T30.Control.{build_id_frame, tx_v21_frames, simple_frame}
use nospandsp_fax.T30.Fields.{build_dcs, parse_dcs, capture_far_ident}
use nospandsp_fax.T30.EcmSend.{
  ecm_start_burst, ecm_apply_ppr, frame_payload, fcd_frame, rcp_frame, memb, padded, ecm_send_ctc,
  ctc_frame,
}
use nospandsp_fax.T30.EcmReceive.{
  ppr_frame, no_slots, is_missing, all_here, ecm_store_fcd, locked, ecm_process_ctc,
}
use nospandsp_fax.T30.Pages.{file_payload, read_payload}
use nospandsp_fax.T30.Answering.{on_hdlc, dispatch, in_a_recv_ecm}
use nospandsp_fax.T30.Status.{on_status}
use nospandsp_fax.T30.Init.{t30_init}
use nospandsp_fax.T30.Engine.{frame, timer}
use nospandsp_fax.T30.Rates.{IsFirstAllowed, next_allowed_fb-IsFirstAllowed}
use nospandsp_fax.T30.Recovery.{ecm_apply_ppr-ppr_frame}
use nospandsp_fax.T30.Transfer.{Accepted, Reach-Accepted, arrives, here, next, pps_frame}
use nospandsp_fax.T30.Repeats.{Repeated, on_hdlc-Repeated}
use nospandsp_fax.T30.Burst.{pull_all, wanted_frames, pull_all-ecm_start_burst}
use nospandsp_fax.T30.Completion.{deliver, deliver-all_here}
use nospandsp_fax.T30.Payload.{read_payload-file_payload}
use nospandsp_fax.T30.Idents.{capture_far_ident-build_id_frame}
use nospandsp_fax.T30.Endings.{Ended, run, run-Ended}
use nospandsp_fax.T30.Silence.{silence, silence-TimedOut}
use nospandsp_fax.T30.Training.{put_all, carrier_down-put_all}
use nospandsp_fax.T30.Agreement.{
  Agrees, parse_dcs-build_dcs_bilevel, parse_dcs-build_dcs_other, ecm_process_ctc-ecm_send_ctc,
}

abbrev plain_call : Config
plain_call = record {
  calling = true;
  v34_enable = false;
  require_v34 = false;
  poll_serve = false;
  poll_receive = false;
  tx_is_color = false;
  tx_is_gray = false;
  tx_is_file = false;
  color_capable = false;
  file_capable = false;
  supported_res = 3;
  ident = 110 ∷ 102 ∷ [];
  drop_above_rate = 0;
  drop_tx = [];
  drop_rx = [];
}

abbrev no_v17 : Modem → Bool
no_v17 v29 = true
no_v17 v27ter = true
no_v17 _ = false

-- No document, no V.34, and an application that leaves the choice of the document alone.
abbrev nowhere : Outside
nowhere = record {
  modem_allowed = no_v17;
  audio = true;
  v34_bit_rate = 0;
  v34_negotiated = false;
  max_frames = 0;
  phase_b = λ s. (s.doc, s.neg);
  read_page = λ page. none;
  read_jpeg = λ is_gray page. none;
  read_file = none;
  jpeg_decode = λ is_gray octets. none;
}

abbrev station : T30
station = t30_init plain_call true

-- A receiver in a burst.
abbrev listening : T30
listening = record station { substate = a_recv_ecm }

next_allowed_fb_example : IsFirstAllowed no_v17 1 (next_allowed_fb no_v17 1)
next_allowed_fb_example = next_allowed_fb-IsFirstAllowed no_v17 1

-- A sender of two frames.
abbrev sender : T30
sender = record station {
  ecm_frames = some 2;
  doc = record (station.doc) { enc = 7 ∷ 8 ∷ [] };
  tx = record (station.tx) { send = true ∷ true ∷ replicate 254 false };
}

pull_all-ecm_start_burst_example :
    pull_all 6 (ecm_start_burst sender)
    ≡ wanted_frames (7 ∷ 8 ∷ []) 0 (true ∷ true ∷ replicate 254 false) 2 0
      ++ (rcp_frame ∷ rcp_frame ∷ rcp_frame ∷ [])
unfolding t30_init
pull_all-ecm_start_burst_example =
    pull_all-ecm_start_burst sender 2 6 refl refl refl refl (omega arith)

-- The first of two frames has arrived.
abbrev half_full : List (Option (List ℕ))
half_full = some (1 ∷ []) ∷ replicate 255 none

ecm_apply_ppr-ppr_frame_example :
    get_or (ecm_apply_ppr sender (ppr_frame false half_full)).tx.send 1 false
    ≡ is_missing (get_or half_full 1 none)
unfolding t30_init
ecm_apply_ppr-ppr_frame_example =
    ecm_apply_ppr-ppr_frame sender false half_full 2 1 refl refl refl (omega arith) (omega arith)

deliver-all_here_example :
    (all_here 2
        (deliver nowhere listening
          (pull_all 5 (ecm_start_burst (ecm_apply_ppr sender (ppr_frame false no_slots))))).rx.slots
      ≡ true)
    × ((deliver nowhere listening
          (pull_all 5 (ecm_start_burst (ecm_apply_ppr sender (ppr_frame false no_slots))))).substate
        ≡ a_recv_ecm)
unfolding t30_init
deliver-all_here_example =
    deliver-all_here nowhere sender listening false 2 5 refl refl refl refl refl (omega arith)
      (omega arith) refl refl refl

-- The receiver with the one frame of a block.
abbrev full : T30
full = on_hdlc nowhere listening (fcd_frame 0 (frame_payload (7 ∷ []) 0 0)) true

at_burst : full.substate ≡ a_recv_ecm
unfolding on_hdlc dispatch in_a_recv_ecm ecm_store_fcd memb frame_payload padded t30_init
at_burst = refl

size : locked full.ecm_frames 1 ≡ 1
unfolding on_hdlc dispatch in_a_recv_ecm ecm_store_fcd memb frame_payload padded t30_init
size = refl

complete : all_here 1 full.rx.slots ≡ true
unfolding on_hdlc dispatch in_a_recv_ecm ecm_store_fcd memb frame_payload padded t30_init all_here
complete = refl

-- The receiver after it has acknowledged the first block of the first page.
abbrev acked : T30
acked = record listening {
  rx = record (listening.rx) { acked = some (0, 0); last_resp_fcf = Fcf.mcf };
}

gray_is_not_bilevel : gray ≢ bilevel
gray_is_not_bilevel e = cc

Reach-Accepted_example :
    Accepted nowhere (7 ∷ []) 0 1 0 0 [] (on_hdlc nowhere full (pps_frame false 0 0 0 0) true)
unfolding t30_init
Reach-Accepted_example =
    Reach-Accepted nowhere (7 ∷ []) 0 1 0 0 listening full false 0 0 refl refl refl
      (next here (arrives listening 0 (omega arith) refl)) (inl at_burst) size complete
      (omega arith) (omega arith)

on_hdlc-Repeated_example : Repeated acked (on_hdlc nowhere acked (pps_frame false 0 0 0 0) true)
unfolding t30_init
on_hdlc-Repeated_example = on_hdlc-Repeated nowhere acked false 0 0 0 0 (inl refl) refl refl

read_payload-file_payload_example :
    read_payload (file_payload (97 ∷ []) (1 ∷ 2 ∷ 3 ∷ [])) ≡ some (1 ∷ 2 ∷ 3 ∷ [])
read_payload-file_payload_example =
    read_payload-file_payload (97 ∷ []) (1 ∷ 2 ∷ 3 ∷ []) (omega arith)

capture_far_ident-build_id_frame_example :
    (capture_far_ident station (build_id_frame false (49 ∷ 32 ∷ 50 ∷ []) 0x42)).far_ident
    ≡ 49 ∷ 32 ∷ 50 ∷ []
capture_far_ident-build_id_frame_example =
    capture_far_ident-build_id_frame station false (49 ∷ 32 ∷ 50 ∷ []) 0x42 (omega arith)
      (λ e. omega (arith, e)) (λ e. omega (arith, e))

abbrev over : T30
over = record station { substate = st_done; finished = true }

run-Ended_example :
    Ended ok over.stats []
      (run over ((nowhere, frame (0xFF ∷ 0x13 ∷ 0x80 ∷ []) true) ∷ (nowhere, timer 160) ∷ []))
unfolding t30_init
run-Ended_example =
    run-Ended over ((nowhere, frame (0xFF ∷ 0x13 ∷ 0x80 ∷ []) true) ∷ (nowhere, timer 160) ∷ [])
      refl refl

abbrev unanswered : T30
unanswered = record station { substate = c_wait_mcf; timeout = 48000 }

silence-TimedOut_example :
    ((silence nowhere 4 unanswered).substate ≡ st_done)
    × ((silence nowhere 4 unanswered).result ≡ err_timeout)
unfolding t30_init
silence-TimedOut_example =
    silence-TimedOut nowhere unanswered
      (record { going = refl; armed = omega arith; no_training = cc })

-- A receiver of a training check at three bits a second.
abbrev training : T30
training = record station { substate = a_recv_tcf; neg = record (station.neg) { bit_rate = 3 } }

carrier_down-put_all_example :
    (let t = on_status nowhere (put_all training (1 ∷ 0 ∷ 0 ∷ 0 ∷ 1 ∷ [])) carrier_down in
      (t.substate ≡ a_send_cfr)
      × (t.calls
          ≡ send_hdlc (simple_frame training.dis_received Fcf.cfr)
            ∷ (tx_v21_frames training).calls))
unfolding t30_init
carrier_down-put_all_example = carrier_down-put_all nowhere training (1 ∷ 0 ∷ 0 ∷ 0 ∷ 1 ∷ []) refl

-- A sender of a page in fine resolution at 9600 bit/s with V.29, and one of a page in grey.
abbrev page_sender : T30
page_sender = record station {
  neg = record (station.neg) { fallback = 3; encoding = t6; ecm = true; nf_res = fine };
}

abbrev gray_sender : T30
gray_sender = record station {
  neg = record (station.neg) { fallback = 3; ecm = true; kind = gray };
}

parse_dcs-build_dcs_bilevel_example :
    Agrees page_sender.neg (parse_dcs station (build_dcs page_sender)).neg
    × ((parse_dcs station (build_dcs page_sender)).neg.ecm ≡ true)
    × ((parse_dcs station (build_dcs page_sender)).neg.encoding ≡ t6)
    × ((parse_dcs station (build_dcs page_sender)).neg.nf_res ≡ fine)
unfolding t30_init
parse_dcs-build_dcs_bilevel_example =
    parse_dcs-build_dcs_bilevel page_sender station refl refl (omega arith) refl (λ e. refl)

parse_dcs-build_dcs_other_example :
    Agrees gray_sender.neg (parse_dcs station (build_dcs gray_sender)).neg
    × ((parse_dcs station (build_dcs gray_sender)).neg.ecm ≡ true)
unfolding t30_init
parse_dcs-build_dcs_other_example =
    parse_dcs-build_dcs_other gray_sender station refl refl (omega arith) gray_is_not_bilevel

ecm_process_ctc-ecm_send_ctc_example :
    ((ecm_send_ctc page_sender).calls
      ≡ send_hdlc (ctc_frame page_sender) ∷ (tx_v21_frames page_sender).calls)
    × ((ecm_process_ctc station (ctc_frame page_sender)).neg.fallback ≡ 3)
    × ((ecm_process_ctc station (ctc_frame page_sender)).neg.modem ≡ v29)
    × ((ecm_process_ctc station (ctc_frame page_sender)).neg.bit_rate ≡ 9600)
    × ((ecm_process_ctc station (ctc_frame page_sender)).substate ≡ a_send_ctr)
    × ((ecm_process_ctc station (ctc_frame page_sender)).calls
        ≡ send_hdlc (simple_frame station.dis_received Fcf.ctr) ∷ (tx_v21_frames station).calls)
unfolding t30_init
ecm_process_ctc-ecm_send_ctc_example =
    ecm_process_ctc-ecm_send_ctc page_sender station (omega arith)
