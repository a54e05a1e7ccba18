-- ===== src/Hex/RoundTrip.antt =====
-- What the writer of hex/intel_hex.c writes is what its parser reads.
pub mod Text
pub mod Lines
pub mod Steps
pub mod File
