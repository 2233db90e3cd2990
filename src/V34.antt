-- ===== src/V34.antt =====
-- The parts of nf_v34.c that count in whole numbers.
pub mod Shell
pub mod Scrambler
pub mod RateTables
pub mod Rates
pub mod Frames
pub mod Info
pub mod Mp
pub mod Channel
pub mod Session
pub mod UserData
