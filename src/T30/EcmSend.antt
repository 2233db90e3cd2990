-- ===== src/T30/EcmSend.antt =====
-- The sender of error-corrected pages in nf_t30.c: blocks of up to 256 frames, the bursts that
-- carry the frames still wanted, and the commands that follow a burst.
use nospandsp_fax.Common.{ℕ, zero, suc, ◌+◌, ◌-◌, ◌*◌, ◌/◌, ◌%◌, Bool, true, false}
use nospandsp_fax.Common.{Option, none, some, List, [], ◌∷◌, length, drop}
use nospandsp_fax.Common.{get_or, set, ◌==◌, ltb, leb, bit, not, ◌&&◌, ◌||◌, if◌then◌else◌}
use nospandsp_fax.T30.Fcf
use nospandsp_fax.T30.Tables.{
  fb, addr, ctl_final, ctl_nonfinal, t30_info_off, t4_fcd, t4_rcp, ecm_octets,
}
use nospandsp_fax.T30.State.{
  T30, Outside, set_tx_type, begin_hdlc_stream, send_hdlc, call, go, with_x, c_send_ecm, c_send_pps,
  c_send_ctc, c_send_eor, Substate,
}
use nospandsp_fax.T30.Control.{tx_v21_frames}

-- The most octets that `ecm_build_block` puts in a block: 256 frames, or fewer at the lower rates
-- of a V.34 call, or fewer on demand.
unfoldable pub block_cap : Outside → Bool → ℕ
block_cap o v34 =
    let frames = o.v34_bit_rate * 24 / ((ecm_octets + 5) * 8) in
    let at_least = if ltb frames 16 then 16 else frames in
    let cap =
      if v34 && (o.audio && (ltb 0 o.v34_bit_rate && ltb at_least 256)) then at_least else 256 in
    let wished = leb 1 o.max_frames && (leb o.max_frames 256 && ltb o.max_frames cap) in
    (if wished then o.max_frames else cap) * ecm_octets

-- The number of frames for `octets` octets, never none.
abbrev pub frames_for : ℕ → ℕ
frames_for octets =
    let frames = (octets + ecm_octets - 1) / ecm_octets in if ltb frames 1 then 1 else frames

-- `for (i = 0; i < frames; i++) ecm_send[i] = 1`
unfoldable pub mark_first : ℕ → List Bool → List Bool
mark_first zero marks = marks
mark_first (suc n) [] = []
mark_first (suc n) (m ∷ marks) = true ∷ mark_first n marks

-- `ecm_build_block`
unfoldable pub ecm_build_block : Outside → T30 → T30
unfolding block_cap mark_first
ecm_build_block o s =
    let remaining = length s.doc.enc - s.tx.tx_base in
    let cap = block_cap o s.v34 in
    let this_block = if ltb remaining cap then remaining else cap in
    let frames = frames_for this_block in
    record s {
      ecm_frames = some frames;
      tx = record (s.tx) {
        send = mark_first frames s.tx.send;
        at_page_end = leb (length s.doc.enc) (s.tx.tx_base + this_block);
      };
      tries = record (s.tries) { ppr_count = 0 };
    }

-- `ecm_start_burst`
unfoldable pub ecm_start_burst : T30 → T30
ecm_start_burst s =
    let s' = record s { tx = record (s.tx) { cursor = 0; rcp_left = 3; burst = 0 } } in
    go (call (call s' (set_tx_type s.neg.modem s.neg.bit_rate 1 true)) begin_hdlc_stream) c_send_ecm

-- `count` octets of a list, zeros behind its end.
unfoldable pub padded : ℕ → List ℕ → List ℕ
padded zero xs = []
padded (suc count) [] = 0 ∷ padded count []
padded (suc count) (x ∷ xs) = x ∷ padded count xs

-- The octets of frame `i` of the block that starts at `base`.
unfoldable pub frame_payload : List ℕ → ℕ → ℕ → List ℕ
unfolding padded
frame_payload enc base i = padded ecm_octets (drop (base + i * ecm_octets) enc)

abbrev pub fcd_frame : ℕ → List ℕ → List ℕ
fcd_frame i payload = addr ∷ ctl_nonfinal ∷ t4_fcd ∷ i % 256 ∷ payload

abbrev pub rcp_frame : List ℕ
rcp_frame = addr ∷ ctl_nonfinal ∷ t4_rcp ∷ []

unfoldable pub memb : ℕ → List ℕ → Bool
memb x [] = false
memb x (y ∷ ys) = x == y || memb x ys

-- The test hooks: every frame is withheld above a rate, and frame `i` is dropped once.
abbrev pub withheld : T30 → Bool
withheld s = ltb 0 s.config.drop_above_rate && ltb s.config.drop_above_rate s.neg.bit_rate

abbrev pub dropped : T30 → ℕ → Bool
dropped s i = not (get_or s.tx.dropped_tx i false) && memb i s.config.drop_tx

-- What happens to the frame under the cursor: it is not wanted, or lost, or it goes out.
pub data Pull : Type 0 where
  passed_over : T30 → Pull
  sent : T30 → List ℕ → Pull

unfoldable pub pull_frame : T30 → Pull
unfolding frame_payload memb
pull_frame s =
    let i = s.tx.cursor in
    let next = record (s.tx) { cursor = i + 1 } in
    let counted = record next { burst = s.tx.burst + 1 } in
    if not (get_or s.tx.send i false)
    then passed_over (record s { tx = next })
    else if withheld s
    then passed_over (record s { tx = counted })
    else if dropped s i
    then passed_over (record s { tx = record counted { dropped_tx = set s.tx.dropped_tx i true } })
    else sent (record s { tx = counted }) (fcd_frame i (frame_payload s.doc.enc s.tx.tx_base i))

-- The `while` loop of `on_get_frame` and the RCP frames behind it; `left` bounds the frames from
-- the cursor to the end of the block. An empty list ends the burst.
unfoldable pub next_frame : ℕ → T30 → T30 × List ℕ
unfolding pull_frame
next_frame zero s =
    if ltb 0 s.tx.rcp_left
    then (record s { tx = record (s.tx) { rcp_left = s.tx.rcp_left - 1 } }, rcp_frame)
    else (s, [])
next_frame (suc left) s = elim (pull_frame s) [
  | passed_over s' ↦ next_frame left s'
  | sent s' frame ↦ (s', frame)
]

abbrev pub frames_left : Option ℕ → ℕ → ℕ
frames_left none cursor = 0
frames_left (some frames) cursor = frames - cursor

-- `on_get_frame`, with room for every frame: first the control burst, then those of a block.
unfoldable pub serve : Option (List (List ℕ)) → Substate → T30 → T30 × List ℕ
unfolding next_frame
serve (some (frame ∷ rest)) u s = (record s { cburst = some rest }, frame)
serve (some []) u s = (record s { cburst = none }, [])
serve none c_send_ecm s = next_frame (frames_left s.ecm_frames s.tx.cursor) s
serve none _ s = (s, [])

unfoldable pub on_get_frame : T30 → T30 × List ℕ
unfolding serve
on_get_frame s = serve s.cburst s.substate s

-- `ecm_send_pps`
unfoldable pub ecm_send_pps : T30 → T30
unfolding tx_v21_frames
ecm_send_pps s =
    let x = s.dis_received in
    let step = if s.tx.at_page_end then with_x x s.tx.next_tx_step else Fcf.null in
    let frame =
      addr
      ∷ ctl_final
      ∷ with_x x Fcf.pps
      ∷ step
      ∷ s.doc.cur_page % 256
      ∷ s.ecm_block % 256
      ∷ (s.tx.burst - 1) % 256
      ∷ [] in
    go (call (tx_v21_frames s) (send_hdlc frame)) c_send_pps

-- The marks of frames `i` and up from the map, the lowest bit of an octet first; behind the
-- frames of the block they stay.
unfoldable pub apply_map : ℕ → ℕ → List ℕ → List Bool → List Bool
apply_map i frames fif [] = []
apply_map i frames fif (m ∷ marks) =
    let wanted = bit (get_or fif (i / 8) 0) (i % 8) == 1 in
    (if ltb i frames then wanted else m) ∷ apply_map (suc i) frames fif marks

-- `ecm_apply_ppr`: a message that is too short is ignored.
unfoldable pub ecm_apply_ppr : T30 → List ℕ → T30
unfolding apply_map
ecm_apply_ppr s msg =
    let marked : ℕ → T30 = λ frames. record s {
      tx = record (s.tx) { send = apply_map 0 frames (drop t30_info_off msg) s.tx.send };
    } in
    if ltb (length msg) (t30_info_off + 32)
    then s
    else elim (s.ecm_frames) [ none ↦ s | some frames ↦ marked frames ]

abbrev pub ctc_frame : T30 → List ℕ
ctc_frame s = addr ∷ ctl_final ∷ with_x s.dis_received Fcf.ctc ∷ 0 ∷ (fb s.neg.fallback).dcs ∷ []

-- `ecm_send_ctc`
unfoldable pub ecm_send_ctc : T30 → T30
unfolding tx_v21_frames
ecm_send_ctc s = go (call (tx_v21_frames s) (send_hdlc (ctc_frame s))) c_send_ctc

-- `ecm_send_eor`
unfoldable pub ecm_send_eor : T30 → T30
unfolding tx_v21_frames
ecm_send_eor s =
    let x = s.dis_received in
    let step = if s.tx.at_page_end then s.tx.next_tx_step else Fcf.null in
    let frame = addr ∷ ctl_final ∷ with_x x Fcf.eor ∷ with_x x step ∷ [] in
    go (call (tx_v21_frames s) (send_hdlc frame)) c_send_eor
