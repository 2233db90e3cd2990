-- ===== src/Tests.antt =====
-- The theorems at concrete inputs, one file for each part of the program.
mod Transport
mod Framing
mod Companding
mod Backend
mod Coding
mod Negotiation
mod Session
mod Signalling
mod Startup
mod Driver
