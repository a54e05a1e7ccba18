-- ===== src/Tests.antt =====
-- The theorems at work: data for them, and each of them applied to it.
mod Data
mod Sessions
mod Drivers
mod Pieces
mod Flash
mod Port
mod Hex
mod Fuses
