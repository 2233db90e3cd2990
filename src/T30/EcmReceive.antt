-- ===== src/T30/EcmReceive.antt =====
-- The receiver of error-corrected pages in nf_t30.c: frames are stored by their number, a command
-- of the sender is answered by an acknowledgment or by a map of what is missing, and whole blocks
-- are put together to a page.
use nospandsp_fax.Common.{ℕ, zero, suc, ◌+◌, ◌*◌, ◌/◌, Bool, true, false}
use nospandsp_fax.Common.{Option, none, some, List, [], ◌∷◌, ◌++◌, length, take, drop, replicate}
use nospandsp_fax.Common.{get_or, set, ◌==◌, ltb, leb, not, ◌&&◌, if◌then◌else◌}
use Prim.Native.Nat.{min}
use nospandsp_fax.T30.Fcf
use nospandsp_fax.T30.Tables.{fb, addr, ctl_final, t30_info_off, ecm_octets, fb_from_dcs_byte}
use nospandsp_fax.T30.State.{
  T30, set_rx_type, send_hdlc, call, go, with_x, arm_timeout, a_recv_ecm, a_send_ppr,
  a_send_ecm_mcf, a_send_ctr, a_send_err, a_reack, Substate,
}
use nospandsp_fax.T30.Control.{tx_v21_frames, send_simple}
use nospandsp_fax.T30.EcmSend.{memb}

abbrev pub no_slots : List (Option (List ℕ))
no_slots = replicate 256 none

-- NF_RX_MAX_PAGE
abbrev pub rx_max_page : ℕ
rx_max_page = 64 * 1024 * 1024

-- `ecm_rx_begin_page`
unfoldable pub ecm_rx_begin_page : T30 → T30
ecm_rx_begin_page s = record s {
  rx = record (s.rx) { slots = no_slots; page = [] };
  ecm_frames = none;
  ecm_block = 0;
}

-- `ecm_rx_listen`
unfoldable pub ecm_rx_listen : T30 → T30
ecm_rx_listen s =
    let s' = go (call s (set_rx_type s.neg.modem s.neg.bit_rate 1 true)) a_recv_ecm in
    arm_timeout s' (if s.v34 then 45000 else 15000)

-- `ecm_store_fcd`: at most 256 octets behind the frame's number. A frame without a number has -1
-- octets in the source and is left alone.
unfoldable pub ecm_store_fcd : T30 → List ℕ → T30
unfolding memb
ecm_store_fcd s msg =
    let fno = get_or msg t30_info_off 0 in
    let lost = not (get_or s.rx.dropped_rx fno false) && memb fno s.config.drop_rx in
    let payload = take ecm_octets (drop 4 msg) in
    if ltb (length msg) 4
    then s
    else if lost
    then record s { rx = record (s.rx) { dropped_rx = set s.rx.dropped_rx fno true } }
    else record s { rx = record (s.rx) { slots = set s.rx.slots fno (some payload) } }

-- `ecm_rx_append` on the octets of a frame; those that would make the page too large are dropped.
-- The buffer grows as needed: an allocation that fails is not modelled.
unfoldable pub ecm_rx_append : List ℕ → List ℕ → List ℕ
ecm_rx_append page octets =
    if ltb rx_max_page (length page + length octets) then page else page ++ octets

abbrev pub is_missing : Option (List ℕ) → Bool
is_missing none = true
is_missing (some octets) = false

-- Of the first `frames` slots none is empty.
unfoldable pub all_here : ℕ → List (Option (List ℕ)) → Bool
all_here zero slots = true
all_here (suc frames) [] = true
all_here (suc frames) (slot ∷ slots) = not (is_missing slot) && all_here frames slots

-- The first `frames` slots that are not empty, appended in order.
unfoldable pub append_slots : ℕ → List (Option (List ℕ)) → List ℕ → List ℕ
unfolding ecm_rx_append
append_slots zero slots page = page
append_slots (suc frames) [] page = page
append_slots (suc frames) (none ∷ slots) page = append_slots frames slots page
append_slots (suc frames) (some octets ∷ slots) page =
    append_slots frames slots (ecm_rx_append page octets)

-- An octet of the map: bit `j` for a frame that is missing. The octet has `left` bits to go.
unfoldable pub map_octet : ℕ → List (Option (List ℕ)) → ℕ
map_octet zero slots = 0
map_octet (suc left) [] = 0
map_octet (suc left) (slot ∷ slots) = (if is_missing slot then 1 else 0) + 2 * map_octet left slots

unfoldable pub missing_map : ℕ → List (Option (List ℕ)) → List ℕ
unfolding map_octet
missing_map zero slots = []
missing_map (suc left) slots = map_octet 8 slots ∷ missing_map left (drop 8 slots)

-- The frame that `ecm_send_ppr` sends.
unfoldable pub ppr_frame : Bool → List (Option (List ℕ)) → List ℕ
unfolding missing_map
ppr_frame x slots = addr ∷ ctl_final ∷ with_x x Fcf.ppr ∷ missing_map 32 slots

-- `ecm_send_ppr`
unfoldable pub ecm_send_ppr : T30 → T30
unfolding tx_v21_frames ppr_frame
ecm_send_ppr s =
    go (call (tx_v21_frames s) (send_hdlc (ppr_frame s.dis_received s.rx.slots))) a_send_ppr

-- `reack`: the last response again, an acknowledgment if there was none.
unfoldable pub reack : T30 → Substate → T30
unfolding tx_v21_frames
reack s resume =
    let s' = record s { rx = record (s.rx) { reack_return = resume } } in
    let fcf = if s.rx.last_resp_fcf == 0 then Fcf.mcf else s.rx.last_resp_fcf in
    go (send_simple (tx_v21_frames s') fcf) a_reack

abbrev pub same_block : Option (ℕ × ℕ) → ℕ → ℕ → Bool
same_block none page block = false
same_block (some (p, b)) page block = page == p && block == b

-- A block that is whole: its frames go to the page and it is acknowledged.
unfoldable pub accept_block : T30 → ℕ → ℕ → ℕ → T30
unfolding tx_v21_frames append_slots
accept_block s frames page block =
    let s' = record s {
      rx = record (s.rx) {
        page = append_slots frames s.rx.slots s.rx.page;
        slots = no_slots;
        acked = some (page, block);
        last_resp_fcf = Fcf.mcf;
      };
      ecm_block = s.ecm_block + 1;
      ecm_frames = none;
    } in
    go (send_simple (tx_v21_frames s') Fcf.mcf) a_send_ecm_mcf

-- The size of the block: fixed by the first command that names it.
abbrev pub locked : Option ℕ → ℕ → ℕ
locked none frames = frames
locked (some known) frames = known

-- `ecm_process_pps`
unfoldable pub ecm_process_pps : T30 → List ℕ → T30
unfolding reack all_here accept_block ecm_send_ppr
ecm_process_pps s msg =
    let fcf2 = get_or msg 3 0 / 2 * 2 in
    let page = get_or msg 4 0 in
    let block = get_or msg 5 0 in
    let frames = locked s.ecm_frames (get_or msg 6 0 + 1) in
    let s' = record s { ecm_frames = some frames; rx = record (s.rx) { last_pps_fcf2 = fcf2 } } in
    if ltb (length msg) 7
    then s
    else if same_block s.rx.acked page block
    then reack s a_recv_ecm
    else if all_here frames s.rx.slots
    then accept_block s' frames page block
    else ecm_send_ppr s'

-- `ecm_process_ctc`
unfoldable pub ecm_process_ctc : T30 → List ℕ → T30
unfolding tx_v21_frames fb_from_dcs_byte
ecm_process_ctc s msg =
    let known = if leb 5 (length msg) then fb_from_dcs_byte (get_or msg 4 0) else none in
    let s' : T30 = elim known [
      | none ↦ s
      | some i ↦ record s {
        neg = record (s.neg) { fallback = i; modem = (fb i).modem; bit_rate = (fb i).rate };
        stats = record (s.stats) { stat_rate = (fb i).rate };
      }
    ] in
    go (send_simple (tx_v21_frames s') Fcf.ctr) a_send_ctr

abbrev pub known_frames : Option ℕ → ℕ
known_frames none = 0
known_frames (some frames) = frames

-- `ecm_process_eor`: what there is of the block goes to the page; the slots stay as they are.
unfoldable pub ecm_process_eor : T30 → T30
unfolding tx_v21_frames append_slots
ecm_process_eor s =
    let frames = min 256 (known_frames s.ecm_frames) in
    let s' = record s { rx = record (s.rx) { page = append_slots frames s.rx.slots s.rx.page } } in
    go (send_simple (tx_v21_frames s') Fcf.err) a_send_err
