-- ===== src/T4.antt =====
-- nf_t4.c and nf_t4.h: the bilevel image codec of T.4 and T.6.
pub mod Tables
pub mod Encode
pub mod Bits
pub mod Rows
pub mod Decode
pub mod DecodeRows
pub mod Page
