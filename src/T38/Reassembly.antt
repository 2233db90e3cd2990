-- ===== src/T38/Reassembly.antt =====
-- The HDLC frames of nf_t38.c: sent in chunks with the bits of each octet reversed, and put together
-- again by the receiver.
use nospandsp_fax.Common.{ℕ, ◌+◌, ◌≤◌, ◌<◌, ◌≡◌, refl, ap, sym, arith, ◌∙◌, true}
use nospandsp_fax.Common.{List, [], ◌∷◌, ◌++◌, map, length, ◌==◌, ==_iff}
use nospandsp_fax.Common.{
  all_below, all_below_sound, All, IsByte, length-append, take_short, length-map, append_assoc,
  append-nil,
}
use nospandsp_fax.T38.Wire.{bitrev8, ft_hdlc_data, ft_hdlc_fcs_ok}
use nospandsp_fax.T38.State.{T38, World, Iface, put}
use nospandsp_fax.T38.Emit.{load_hdlc_frame}
use nospandsp_fax.T38.Receive.{IfpField, rx_hdlc_data, rx_hdlc_frame, rx_data_field, rx_fields}

bitrev8_twice : (x : ℕ) → x < 256 → bitrev8 (bitrev8 x) ≡ x
bitrev8_twice x lt =
    (==_iff _ x).0
      (all_below_sound 256 (λ x. bitrev8 (bitrev8 x) == x) x (unfold all_below bitrev8 in refl) lt)

map-map-bitrev8 : (xs : List ℕ) → All IsByte xs → map bitrev8 (map bitrev8 xs) ≡ xs
map-map-bitrev8 [] bytes = refl
map-map-bitrev8 (x ∷ xs) (byte, bytes) = rw (bitrev8_twice x byte, map-map-bitrev8 xs bytes)

map-append : (f : ℕ → ℕ) (xs ys : List ℕ) → map f (xs ++ ys) ≡ map f xs ++ map f ys
map-append f [] ys = refl
map-append f (x ∷ xs) ys = ap (λ (t : List ℕ). f x ∷ t) (map-append f xs ys)

-- The chunks of a frame as fields, and the field behind them that ends the frame.
abbrev pub frame_fields : List (List ℕ) → List IfpField
frame_fields [] = record { ft = ft_hdlc_fcs_ok; payload = [] } ∷ []
frame_fields (c ∷ cs) = record { ft = ft_hdlc_data; payload = c } ∷ frame_fields cs

abbrev pub joined : List (List ℕ) → List ℕ
joined [] = []
joined (c ∷ cs) = c ++ joined cs

module _ {U : Type 0} (up : Iface U) where
  -- The receiver with `octets` in its buffer.
  abbrev holding : World U → List ℕ → World U
  holding w octets = put w (record (w.t38) { rx_hdlc = octets })

  rx_data_field_chunk :
      (w : World U) (had c : List ℕ)
      → w.t38.rx_hdlc ≡ had
      → 1 ≤ length c
      → length had + length c ≤ 600
      → rx_data_field up w 0 c ≡ holding w (had ++ map bitrev8 c)
  unfolding rx_data_field rx_hdlc_data
  rx_data_field_chunk w had c start some_octets room = rw start (ground (arith, some_octets, room))

  rx_fields-frame_fields :
      (chunks : List (List ℕ)) (w : World U) (had : List ℕ)
      → w.t38.rx_hdlc ≡ had
      → All (λ (c : List ℕ). 1 ≤ length c) chunks
      → length had + length (joined chunks) ≤ 600
      → rx_fields up (frame_fields chunks) w
        ≡ rx_hdlc_frame up (holding w (had ++ map bitrev8 (joined chunks))) true
  unfolding rx_fields
  rx_fields-frame_fields [] w had start full room =
      unfold rx_data_field in
      ap (λ (t : List ℕ). rx_hdlc_frame up (holding w t) true) (start ∙ sym (append-nil had))
  rx_fields-frame_fields (c ∷ cs) w had start (some_octets, full) room =
      let sized = length-append c (joined cs) in
      let grown = length-append had (map bitrev8 c) in
      let same = length-map bitrev8 c in
      let regroup : (had ++ map bitrev8 c) ++ map bitrev8 (joined cs)
          ≡ had ++ map bitrev8 (c ++ joined cs) =
        append_assoc had (map bitrev8 c) (map bitrev8 (joined cs))
        ∙ ap (λ (t : List ℕ). had ++ t) (sym (map-append bitrev8 c (joined cs))) in
      ap (λ (v : World U). rx_fields up (frame_fields cs) v)
        (rx_data_field_chunk w had c start some_octets (omega (arith, room, sized)))
      ∙ (rx_fields-frame_fields cs (holding w (had ++ map bitrev8 c)) (had ++ map bitrev8 c) refl
            full (omega (arith, room, sized, grown, same))
          ∙ ap (λ (t : List ℕ). rx_hdlc_frame up (holding w t) true) regroup)

  -- A frame of 1 to 600 octets that `t38_send_hdlc` loads, cut into any chunks that are not empty
  -- and followed by the field for a good check sequence, reaches the protocol layer in one call as
  -- the octets given, with a good verdict, and leaves the buffer empty, if the buffer was empty.
  pub rx_fields-load_hdlc_frame :
      (s : T38) (w : World U) (message : List ℕ) (chunks : List (List ℕ))
      → All IsByte message
      → 1 ≤ length message
      → length message ≤ 600
      → joined chunks ≡ (load_hdlc_frame s message).tx_frame
      → All (λ (c : List ℕ). 1 ≤ length c) chunks
      → w.t38.rx_hdlc ≡ []
      → rx_fields up (frame_fields chunks) w ≡ (
          let w' = up.hdlc_accept message true (put w (record (w.t38) { rx_hdlc = message })) in
          put w' (record (w'.t38) { rx_hdlc = [] }))
  unfolding load_hdlc_frame
  rx_fields-load_hdlc_frame s w message chunks bytes some_octets short cut full start =
      let whole : joined chunks ≡ map bitrev8 message =
        cut ∙ ap (λ (t : List ℕ). map bitrev8 t) (take_short message 600 short) in
      let back : map bitrev8 (joined chunks) ≡ message = rw whole (map-map-bitrev8 message bytes) in
      let sized : length (joined chunks) ≡ length message = rw whole (length-map bitrev8 message) in
      rx_fields-frame_fields chunks w [] start full (omega (arith, sized))
      ∙ unfold rx_hdlc_frame in rw back (ground (arith, some_octets))
