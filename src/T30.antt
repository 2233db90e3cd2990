-- ===== src/T30.antt =====
-- nf_t30.c: the T.30 protocol engine, which runs a call on top of a backend.
pub mod Fcf
pub mod Tables
pub mod State
pub mod Control
pub mod Fields
pub mod EcmSend
pub mod EcmReceive
pub mod Pages
pub mod Calling
pub mod Answering
pub mod Status
pub mod Engine
pub mod Init
pub mod Rates
pub mod Recovery
pub mod Blocks
pub mod Transfer
pub mod Repeats
pub mod Burst
pub mod Completion
pub mod Payload
pub mod Idents
pub mod Endings
pub mod Silence
pub mod Expiry
pub mod Training
pub mod DcsTable
pub mod Agreement
