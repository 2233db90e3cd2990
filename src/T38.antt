-- ===== src/T38.antt =====
-- nf_t38.c and nf_t38.h: the T.38 terminal backend between the T.30 engine and UDPTL.
pub mod Wire
pub mod State
pub mod Emit
pub mod Control
pub mod Pump
pub mod Receive
pub mod Packets
pub mod Reassembly
