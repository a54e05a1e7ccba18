-- ===== src/Devices.antt =====
-- The devices that the repository ships: the device packs, and the rows that
-- scripts/gen_device_table.py makes of them.
pub mod Pack
pub mod Ea
pub mod Tiny
pub mod Mega
pub mod Table
