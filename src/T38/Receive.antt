-- ===== src/T38/Receive.antt =====
-- The receiving half of nf_t38.c: from a datagram to the callbacks of the T.30 engine.
use nospandsp_fax.Common.{ℕ, zero, suc, ◌+◌, ◌*◌, ◌/◌, Bool, true, false, Option, none, some}
use nospandsp_fax.Common.{
  List, [], ◌∷◌, ◌++◌, map, length, take, drop, ltb, leb, ◌==◌, ◌||◌, ◌&&◌, not,
}
use nospandsp_fax.Common.{bit, low_bits, if◌then◌else◌}
use nospandsp_fax.Udptl.Decode.{Delivery, rx}
use nospandsp_fax.T38.Wire.{bitrev8, ind_no_signal, ind_ced, ind_cng, ind_v21_preamble}
use nospandsp_fax.T38.State.{World, Iface, Status, put}

-- A field of a data packet: its type and its payload, empty for a field without one.
pub record IfpField : Type 0 where
  pub ft : ℕ
  pub payload : List ℕ

-- The fields that `rx_ifp` reads before the packet ends or is found cut short.
unfoldable pub ifp_fields : ℕ → List ℕ → List IfpField
ifp_fields zero buf = []
ifp_fields (suc count) [] = []
ifp_fields (suc count) (fb ∷ []) =
    if bit fb 7 == 0 then record { ft = low_bits (fb / 16) 3; payload = [] } ∷ [] else []
ifp_fields (suc count) (fb ∷ x ∷ []) =
    let rest = ifp_fields count (x ∷ []) in
    if bit fb 7 == 0 then record { ft = low_bits (fb / 16) 3; payload = [] } ∷ rest else []
ifp_fields (suc count) (fb ∷ x ∷ y ∷ r) =
    let len = x * 256 + y + 1 in
    let bare = ifp_fields count (x ∷ y ∷ r) in
    let filled = ifp_fields count (drop len r) in
    if bit fb 7 == 0
    then record { ft = low_bits (fb / 16) 3; payload = [] } ∷ bare
    else if leb len (length r)
    then record { ft = low_bits (fb / 16) 3; payload = take len r } ∷ filled
    else []

-- The number of fields and what follows it; a packet with more than 64 is ignored.
unfoldable pub ifp_count : List ℕ → Option (ℕ × List ℕ)
ifp_count [] = none
ifp_count (b ∷ []) = if bit b 7 == 0 then some (b, []) else none
ifp_count (b ∷ c ∷ r) =
    let count = low_bits b 6 * 256 + c in
    if bit b 7 == 0
    then (if ltb 64 b then none else some (b, c ∷ r))
    else if ltb 64 count
    then none
    else some (count, r)

-- An IFP packet as `rx_ifp` understands it. The data type of a data packet is not looked at.
pub data Packet : Type 0 where
  indicator : ℕ → Packet
  fields : List IfpField → Packet
  ignored : Packet

unfoldable pub parse_ifp : List ℕ → Packet
unfolding ifp_count ifp_fields
parse_ifp [] = ignored
parse_ifp (b0 ∷ r) =
    if bit b0 6 == 0
    then (if bit b0 7 == 0 then indicator (low_bits (b0 / 2) 6) else ignored)
    else elim (ifp_count r) [ none ↦ ignored | some (count, r') ↦ fields (ifp_fields count r') ]

module _ {U : Type 0} (up : Iface U) where
  -- `rx_carrier_down`: only a fast carrier's end is reported.
  unfoldable pub rx_carrier_down : World U → World U
  rx_carrier_down w =
      let w' =
        if w.t38.rx_carrier && w.t38.rx_is_fast
        then up.front_end_status Status.carrier_down w
        else w in
      put w' (record (w'.t38) { rx_carrier = false })

  -- `rx_indicator`
  unfoldable pub rx_indicator : World U → ℕ → World U
  unfolding rx_carrier_down
  rx_indicator w ind =
      let w' = rx_carrier_down w in
      let w'' = put w' (record (w'.t38) { rx_hdlc = [] }) in
      let fast = not (ind == ind_v21_preamble) in
      let carrier = put w'' (record (w''.t38) { rx_is_fast = fast; rx_carrier = true }) in
      if ind == ind_no_signal || (ind == ind_ced || ind == ind_cng)
      then put w'' (record (w''.t38) { rx_is_fast = false })
      else if fast
      then up.front_end_status Status.training_succeeded
          (up.front_end_status Status.carrier_up carrier)
      else carrier

  -- `rx_hdlc_frame`
  unfoldable pub rx_hdlc_frame : World U → Bool → World U
  rx_hdlc_frame w verdict =
      let w' = if ltb 0 (length w.t38.rx_hdlc) then up.hdlc_accept w.t38.rx_hdlc verdict w else w in
      put w' (record (w'.t38) { rx_hdlc = [] })

  -- The bits of an octet, highest first; `left` counts those to go.
  unfoldable pub put_octet : ℕ → ℕ → World U → World U
  put_octet zero octet w = w
  put_octet (suc left) octet w = put_octet left octet (up.non_ecm_put_bit (bit octet left) w)

  unfoldable pub put_octets : List ℕ → World U → World U
  unfolding put_octet
  put_octets [] w = w
  put_octets (x ∷ xs) w = put_octets xs (put_octet 8 x w)

  -- The FT_HDLC_DATA case: octets past the 600 of the buffer are dropped with their field.
  unfoldable pub rx_hdlc_data : World U → List ℕ → World U
  rx_hdlc_data w p =
      let s = w.t38 in
      if ltb 0 (length p) && leb (length s.rx_hdlc + length p) 600
      then put w (record s { rx_hdlc = s.rx_hdlc ++ map bitrev8 p })
      else w

  -- `rx_data_field`: the `switch` over the field type.
  unfoldable pub rx_data_field : World U → ℕ → List ℕ → World U
  unfolding rx_hdlc_data rx_hdlc_frame rx_carrier_down put_octets
  rx_data_field w ft p =
      if ft == 0
      then rx_hdlc_data w p
      else if ft == 2
      then rx_hdlc_frame w true
      else if ft == 3
      then rx_hdlc_frame w false
      else if ft == 4 || ft == 1
      then rx_carrier_down (rx_hdlc_frame w true)
      else if ft == 5
      then rx_carrier_down (rx_hdlc_frame w false)
      else if ft == 6
      then put_octets p w
      else if ft == 7
      then rx_carrier_down w
      else w

  unfoldable pub rx_fields : List IfpField → World U → World U
  unfolding rx_data_field
  rx_fields [] w = w
  rx_fields (f ∷ fs) w = rx_fields fs (rx_data_field w f.ft f.payload)

  -- What a parsed packet does.
  unfoldable pub rx_packet : Packet → World U → World U
  unfolding rx_indicator rx_fields
  rx_packet (indicator ind) w = rx_indicator w ind
  rx_packet (fields fs) w = rx_fields fs w
  rx_packet ignored w = w

  -- `rx_ifp` on each packet that UDPTL hands over, in order.
  unfoldable pub rx_deliveries : List Delivery → World U → World U
  unfolding parse_ifp rx_packet
  rx_deliveries [] w = w
  rx_deliveries (d ∷ ds) w = rx_deliveries ds (rx_packet (parse_ifp d.ifp) w)

  -- `nf_t38_rx_datagram`. The new state of UDPTL is in place before the packets are handled, where C
  -- sets `rx_seq_no` behind them; handling a packet does not read it.
  unfoldable pub rx_datagram : World U → List ℕ → World U
  unfolding rx_deliveries
  rx_datagram w dgram = elim (rx w.t38.udptl dgram) [
    | none ↦ w
    | some (udptl', ds) ↦ rx_deliveries ds (put w (record (w.t38) { udptl = udptl' }))
  ]
