-- ===== src/Tests/Transport.antt =====
-- nf_udptl.c at concrete inputs: two packets go out, and the receiver misses the first.
use nospandsp_fax.Common.{ℕ, ◌+◌, ◌%◌, ◌<◌, ◌≤◌, ◌≡◌, ◌↔◌, ◌⊎◌, inl, refl, arith, none, some}
use nospandsp_fax.Common.{List, [], ◌∷◌, length, replicate, from_zero, true}
use nospandsp_fax.Udptl.Types.{Udptl, init}
use nospandsp_fax.Udptl.Encode.{enc_open_type, enc_length, add_secondaries, datagram, build}
use nospandsp_fax.Udptl.Decode.{
  dec_length, dec_open_type, dec_objects, dec_groups, Delivery, Datagram, fill_gap, parse, accept,
  rx,
}
use nospandsp_fax.Udptl.History.{Holds, init-Holds, log_after, build-Holds}
use nospandsp_fax.Udptl.Recover.{Carries, build-Carries, rx-build}
use nospandsp_fax.Udptl.Order.{InWindow, rx-InWindow, dec_groups_fuel}
use nospandsp_fax.Udptl.Bounds.{build-none_iff, build-le_cap, build_overrun}

-- A no-signal and a V.21 preamble indicator.
abbrev packet_0 : List ℕ
packet_0 = 0 ∷ []

abbrev packet_1 : List ℕ
packet_1 = 6 ∷ []

abbrev sender : Udptl
sender = init (from_zero 2) (from_zero 1400)

abbrev sender_1 : Udptl
sender_1 = (build sender packet_0 100).0

abbrev sender_2 : Udptl
sender_2 = (build sender_1 packet_1 100).0

abbrev datagram_1 : List ℕ
datagram_1 = 0 ∷ 1 ∷ 1 ∷ 6 ∷ 0 ∷ 1 ∷ 1 ∷ 0 ∷ []

abbrev parsed_1 : Datagram
parsed_1 = record { number = 1; primary = packet_1; secs = packet_0 ∷ [] }

-- A receiver that waits for packet 0.
abbrev receiver : Udptl
receiver = record sender { rx_started = true }

sender_1-Holds : Holds sender_1 (packet_0 ∷ [])
sender_1-Holds =
    unfold build datagram enc_open_type enc_length add_secondaries init in
    build-Holds sender [] packet_0 100 (init-Holds (from_zero 2) (from_zero 1400))

build-Holds_example :
    Holds (build sender packet_0 100).0 (log_after (build sender packet_0 100).1 packet_0 [])
build-Holds_example = build-Holds sender [] packet_0 100 (init-Holds (from_zero 2) (from_zero 1400))

built_1 : build sender_1 packet_1 100 ≡ (sender_2, some datagram_1)
unfolding build datagram enc_open_type enc_length add_secondaries init
built_1 = refl

parsed : parse datagram_1 ≡ some parsed_1
unfolding parse dec_open_type dec_length dec_objects dec_groups
parsed = refl

shallow : sender_1.red_entries ≤ 15
unfolding build datagram enc_open_type enc_length add_secondaries init
shallow = omega arith

build-Carries_example :
    (d : Datagram) × (parse datagram_1 ≡ some d) × Carries (packet_0 ∷ []) packet_1 d
build-Carries_example =
    build-Carries sender_1 sender_2 (packet_0 ∷ []) packet_1 datagram_1 100 sender_1-Holds shallow
      built_1

rx-build_example :
    rx receiver datagram_1
    ≡ some (
      record receiver { rx_seq_no = 2 },
      record { ifp = packet_0; seq = 0 } ∷ record { ifp = packet_1; seq = 1 } ∷ [],
    )
rx-build_example =
    rx-build sender_1 sender_2 receiver (packet_0 ∷ []) packet_1 datagram_1 100 1 parsed_1
      sender_1-Holds shallow built_1 parsed (unfold init in refl) (omega arith) (omega arith)
      (unfold init in refl)

abbrev receiver_after : Udptl
receiver_after = record receiver { rx_seq_no = 2 }

abbrev delivered : List Delivery
delivered = record { ifp = packet_0; seq = 0 } ∷ record { ifp = packet_1; seq = 1 } ∷ []

received : rx receiver datagram_1 ≡ some (receiver_after, delivered)
unfolding init rx accept parse dec_open_type dec_length dec_objects dec_groups fill_gap
received = refl

rx-InWindow_example :
    (w : ℕ) × (w ≤ 0x8000)
    × (receiver_after.rx_seq_no ≡ (receiver.rx_seq_no + w) % 65536)
    × InWindow receiver.rx_seq_no 0 w delivered
rx-InWindow_example =
    rx-InWindow receiver receiver_after datagram_1 delivered refl (unfold init in omega arith)
      (omega arith) received

dec_groups_fuel_example : dec_groups 2 [] (0 ∷ []) ≡ dec_groups 9 [] (0 ∷ [])
dec_groups_fuel_example = dec_groups_fuel 2 9 [] (0 ∷ []) (omega arith) (omega arith)

build-none_iff_example :
    ((build sender packet_0 5).1 ≡ none) ↔ ((1 < 1) ⊎ ((512 < 1) ⊎ (5 < 1 + 5)))
build-none_iff_example = build-none_iff sender packet_0 5 (unfold init in omega arith)

build-le_cap_example : length datagram_1 ≤ 100
build-le_cap_example =
    build-le_cap sender_1 sender_2 (packet_0 ∷ []) packet_1 datagram_1 100 sender_1-Holds shallow
      built_1 (inl (omega arith))

abbrev long_packet : List ℕ
long_packet = replicate 128 0xC0

build_overrun_example :
    (s' : Udptl) × (out : List ℕ) × (build sender long_packet (128 + 5) ≡ (s', some out))
    × (length out ≡ 128 + 6)
build_overrun_example =
    build_overrun sender [] long_packet (init-Holds (from_zero 2) (from_zero 1400))
      (unfold init in omega arith) (omega arith) (omega arith)
