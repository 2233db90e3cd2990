-- ===== src/Hdlc.antt =====
-- nf_hdlc.c and nf_hdlc.h: HDLC framing for fax.
pub mod Crc
pub mod Tx
pub mod Rx
pub mod Stuffing
pub mod Line
pub mod Octets
pub mod Destuffing
pub mod Frames
pub mod Transfer
