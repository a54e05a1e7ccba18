-- ===== src/Port.antt =====
-- The C port of the stack (updi/) and the Intel HEX reader and writer (hex/), which the Flipper
-- application runs.
pub mod Ends
pub mod Call
pub mod Transport
pub mod Link
pub mod Nvm
pub mod Device
pub mod Session
