-- ===== src/T30/Agreement.antt =====
-- What two stations of nf_t30.c agree on: a DCS and a CTC, read by the far end.
use nospandsp_fax.Common.{ℕ, ◌<◌, ◌≡◌, ◌≢◌, refl, ap, sym, ◌∙◌}
use nospandsp_fax.Common.{Bool, true, false, List, ◌∷◌, take}
use mathlib.Core.Path.{subst}
use nospandsp_fax.T30.Fcf
use nospandsp_fax.T4.Encode.{t6}
use nospandsp_fax.T30.Tables.{fb, min_scan_code}
use nospandsp_fax.T30.State.{T30, Kind, bilevel, Negotiated, send_hdlc, a_send_ctr, with_x}
use nospandsp_fax.T30.Control.{tx_v21_frames, simple_frame}
use nospandsp_fax.T30.Fields.{dcs_frame, build_dcs, parse_dcs, dcs_choice}
use nospandsp_fax.T30.EcmSend.{ecm_send_ctc, ctc_frame}
use nospandsp_fax.T30.EcmReceive.{ecm_process_ctc}
use nospandsp_fax.T30.DcsTable.{read_dcs, read_bilevel, read_other, min_scan_code_lt}
use nospandsp_fax.T30.Rates.{fb_from_dcs_byte-fb}

-- A receiver that gets the CTC of a sender, whose row is one of the table, goes on at that row of
-- the fallback table, with its modem and its rate, and confirms it.
pub ecm_process_ctc-ecm_send_ctc :
    (s r : T30)
    → s.neg.fallback < 8
    → ((ecm_send_ctc s).calls ≡ send_hdlc (ctc_frame s) ∷ (tx_v21_frames s).calls)
      × ((ecm_process_ctc r (ctc_frame s)).neg.fallback ≡ s.neg.fallback)
      × ((ecm_process_ctc r (ctc_frame s)).neg.modem ≡ (fb s.neg.fallback).modem)
      × ((ecm_process_ctc r (ctc_frame s)).neg.bit_rate ≡ (fb s.neg.fallback).rate)
      × ((ecm_process_ctc r (ctc_frame s)).substate ≡ a_send_ctr)
      × ((ecm_process_ctc r (ctc_frame s)).calls
          ≡ send_hdlc (simple_frame r.dis_received Fcf.ctr) ∷ (tx_v21_frames r).calls)
unfolding ecm_send_ctc ecm_process_ctc tx_v21_frames
ecm_process_ctc-ecm_send_ctc s r lt =
    let known = fb_from_dcs_byte-fb (s.neg.fallback) lt in
    (refl, rw known refl, rw known refl, rw known refl, refl, rw known refl)

-- What a receiver has agreed to with the sender of a DCS.
pub record Agrees (s n : Negotiated) : Type 0 where
  pub fallback_same : n.fallback ≡ s.fallback
  pub modem_same : n.modem ≡ (fb s.fallback).modem
  pub rate_same : n.bit_rate ≡ (fb s.fallback).rate
  pub kind_same : n.kind ≡ s.kind

-- What a receiver makes of the DCS, outside of a call over V.34.
parse_dcs_lem :
    (s r : T30)
    → s.v34 ≡ false
    → r.v34 ≡ false
    → (parse_dcs r (build_dcs s)).neg
      ≡ read_dcs
          (with_x s.dis_received Fcf.dcs)
          s.neg.kind
          s.neg.encoding
          s.neg.ecm
          s.neg.nf_res
          (min_scan_code s.neg.ecm s.neg.nf_res s.far_dis)
          s.neg.fallback
unfolding build_dcs parse_dcs
parse_dcs_lem s r plain plain' =
    let frame : Bool → List ℕ = λ b.
      dcs_frame (with_x s.dis_received Fcf.dcs) b (min_scan_code s.neg.ecm s.neg.nf_res s.far_dis)
        s.neg.fallback s.neg.kind s.neg.encoding s.neg.ecm s.neg.nf_res in
    ap (λ (b : Bool). dcs_choice b (take 24 (frame s.v34))) plain'
    ∙ ap (λ (b : Bool). dcs_choice false (take 24 (frame b))) plain

-- Outside of a call over V.34 the modem and the rate are those of the row.
of_row :
    (f : List ℕ)
    → ((dcs_choice false f).modem ≡ (fb (dcs_choice false f).fallback).modem)
      × ((dcs_choice false f).bit_rate ≡ (fb (dcs_choice false f).fallback).rate)
unfolding dcs_choice
of_row f = (refl, refl)

agrees :
    (f : List ℕ) (s : Negotiated)
    → (dcs_choice false f).fallback ≡ s.fallback
    → (dcs_choice false f).kind ≡ s.kind
    → Agrees s (dcs_choice false f)
agrees f s row kind = record {
  fallback_same = row;
  modem_same = (of_row f).0 ∙ ap (λ (i : ℕ). (fb i).modem) row;
  rate_same = (of_row f).1 ∙ ap (λ (i : ℕ). (fb i).rate) row;
  kind_same = kind;
}

abbrev sent_dcs : T30 → List ℕ
sent_dcs s = take 24 (
    dcs_frame (with_x s.dis_received Fcf.dcs) false (min_scan_code s.neg.ecm s.neg.nf_res s.far_dis)
      s.neg.fallback s.neg.kind s.neg.encoding s.neg.ecm s.neg.nf_res)

-- A receiver that reads the DCS of a sender of a bilevel document, both in a call that is not over
-- V.34, agrees with it on the row of the fallback table and so on the modem and its rate, on the
-- kind, on error correction, on the coding and on the resolution, if the sender's row is one of the
-- table and T.6 is only chosen with error correction.
pub parse_dcs-build_dcs_bilevel :
    (s r : T30)
    → s.v34 ≡ false
    → r.v34 ≡ false
    → s.neg.fallback < 8
    → s.neg.kind ≡ bilevel
    → (s.neg.encoding ≡ t6 → s.neg.ecm ≡ true)
    → (let n = (parse_dcs r (build_dcs s)).neg in
        Agrees s.neg n
        × (n.ecm ≡ s.neg.ecm)
        × (n.encoding ≡ s.neg.encoding)
        × (n.nf_res ≡ s.neg.nf_res))
parse_dcs-build_dcs_bilevel s r plain plain' row is_bilevel coded =
    let (at_row, at_kind, at_ecm, at_encoding, at_res) =
      read_bilevel (with_x s.dis_received Fcf.dcs) (min_scan_code s.neg.ecm s.neg.nf_res s.far_dis)
        (s.neg.fallback) (s.neg.encoding) (s.neg.ecm) (s.neg.nf_res)
        (min_scan_code_lt (s.neg.ecm) (s.neg.nf_res) (s.far_dis)) row coded in
    let frame : Kind → List ℕ = λ k. take 24 (
      dcs_frame (with_x s.dis_received Fcf.dcs) false
        (min_scan_code s.neg.ecm s.neg.nf_res s.far_dis) s.neg.fallback k s.neg.encoding s.neg.ecm
        s.neg.nf_res) in
    subst
      (λ (n : Negotiated).
        Agrees s.neg n
        × (n.ecm ≡ s.neg.ecm)
        × (n.encoding ≡ s.neg.encoding)
        × (n.nf_res ≡ s.neg.nf_res))
      (sym
        (parse_dcs_lem s r plain plain' ∙ ap (λ (k : Kind). dcs_choice false (frame k)) is_bilevel))
      (
        agrees (frame bilevel) (s.neg) at_row (at_kind ∙ sym is_bilevel),
        at_ecm,
        at_encoding,
        at_res,
      )

-- A receiver that reads the DCS of a sender of a document in colour, in grey or of a file, both in a
-- call that is not over V.34, agrees with it on the row of the fallback table, on the modem, on the
-- rate and on the kind, and receives with error correction, if the row is one of the table.
pub parse_dcs-build_dcs_other :
    (s r : T30)
    → s.v34 ≡ false
    → r.v34 ≡ false
    → s.neg.fallback < 8
    → s.neg.kind ≢ bilevel
    → (let n = (parse_dcs r (build_dcs s)).neg in Agrees s.neg n × (n.ecm ≡ true))
parse_dcs-build_dcs_other s r plain plain' row other =
    let (at_row, at_kind, at_ecm) =
      read_other (with_x s.dis_received Fcf.dcs) (min_scan_code s.neg.ecm s.neg.nf_res s.far_dis)
        (s.neg.fallback) (s.neg.kind) (s.neg.encoding) (s.neg.ecm) (s.neg.nf_res)
        (min_scan_code_lt (s.neg.ecm) (s.neg.nf_res) (s.far_dis)) row other in
    subst (λ (n : Negotiated). Agrees s.neg n × (n.ecm ≡ true))
      (sym (parse_dcs_lem s r plain plain')) (agrees (sent_dcs s) (s.neg) at_row at_kind, at_ecm)
