-- ===== src/Udptl/Types.antt =====
-- The state of nf_udptl.h and `nf_udptl_init`.
use nospandsp_fax.Common.{ℕ, ◌-◌, Bool, false, List, [], replicate, ltb, leb, ◌&&◌, CInt}
use nospandsp_fax.Common.{from_zero, below_zero}
use nospandsp_fax.Common.{if◌then◌else◌}

abbrev pub buf_slots : ℕ
buf_slots = 16

abbrev pub max_ifp : ℕ
max_ifp = 512

abbrev pub max_dgram : ℕ
max_dgram = 1400

-- `nf_udptl_t`. `tx_seq_no` counts up from 0 and stays below the range of C's `int`.
pub record Udptl : Type 0 where
  pub tx_seq_no : ℕ
  pub red_entries : ℕ
  pub far_max_datagram : ℕ
  pub tx : List (List ℕ)
  pub rx_started : Bool
  pub rx_seq_no : ℕ

unfoldable pub clamp_depth : CInt → ℕ
clamp_depth (below_zero n) = 0
clamp_depth (from_zero n) = if ltb (buf_slots - 1) n then buf_slots - 1 else n

unfoldable pub clamp_datagram : CInt → ℕ
clamp_datagram (below_zero n) = max_dgram
clamp_datagram (from_zero n) = if ltb 0 n && leb n max_dgram then n else max_dgram

-- `nf_udptl_init`
unfoldable pub init : CInt → CInt → Udptl
unfolding clamp_depth clamp_datagram
init redundancy_depth far_max = record {
  tx_seq_no = 0;
  red_entries = clamp_depth redundancy_depth;
  far_max_datagram = clamp_datagram far_max;
  tx = replicate buf_slots [];
  rx_started = false;
  rx_seq_no = 0;
}
