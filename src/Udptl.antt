-- ===== src/Udptl.antt =====
-- nf_udptl.c and nf_udptl.h: the UDPTL transport of T.38 with redundancy.
-- A byte buffer is a list of numbers. The encoder's `(out, len)` is the list written so far and
-- the decoder's `(buf, limit, pos)` is the list that remains to be read; `none` is the return
-- value -1. A history slot `tx[i]` is the packet itself, whose length is `tx[i].len`.
pub mod Types
pub mod Encode
pub mod Decode
pub mod Codec
pub mod Secondaries
pub mod Build
pub mod History
pub mod Recover
pub mod Order
pub mod Bounds
