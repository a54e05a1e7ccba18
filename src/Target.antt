-- ===== src/Target.antt =====
-- The UPDI target of host_test/updi_emu.c, which decodes the instruction stream byte by byte and
-- answers it: an independent description of what the bytes of the Python stack mean to a device.
-- `Target.Memory` is its memory, `Target.Device` the instruction decoder, and `Target.Line` the
-- one-wire line that joins it to the stack.
pub mod Memory
pub mod Device
pub mod Line
pub mod Link
pub mod Transfer
pub mod Session
pub mod Programming
pub mod Emulator
pub mod Flash
pub mod FlashP0
