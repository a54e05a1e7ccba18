-- ===== src/Target/Memory.antt =====
-- The memories of the target of host_test/updi_emu.c: flash, and a small I/O region with the
-- side effects of the NVMCTRL command register.
use updi_programmer.Prelude.{
  ℕ, zero, suc, Bool, ◌+◌, ◌-◌, ◌*◌, ◌%◌, ◌^◌, not, ◌&&◌, List, [], ◌∷◌, ltb, leb, ◌==◌,
  if◌then◌else◌,
}

abbrev pub emu_flash_size : ℕ
emu_flash_size = 0x10000

abbrev pub emu_io_base : ℕ
emu_io_base = 0x1000

abbrev pub emu_io_size : ℕ
emu_io_size = 0x0600

-- the configuration of a preset; the SIB is the bytes that are set
pub record Preset : Type 0 where
  pub flash_base : ℕ
  pub nvmctrl_base : ℕ
  pub status_offset : ℕ
  pub ctrla_offset : ℕ
  pub fuse_data_offset : ℕ
  pub fuse_addr_offset : ℕ
  pub cmd_write_fuse : ℕ
  pub cmd_chip_erase : ℕ
  pub sib : List ℕ

-- the two arrays, by index
pub record Memory : Type 0 where
  pub flash : ℕ → ℕ
  pub io : ℕ → ℕ

-- `array[i] = v`
abbrev pub update : (ℕ → ℕ) → ℕ → ℕ → ℕ → ℕ
update array i v j = if j == i then v else array j

module _ (preset : Preset) where
  open preset use {
    flash_base, nvmctrl_base, status_offset, ctrla_offset, fuse_data_offset, fuse_addr_offset,
    cmd_write_fuse, cmd_chip_erase,
  }

  abbrev pub in_flash : ℕ → Bool
  in_flash addr = leb flash_base addr && ltb addr (flash_base + emu_flash_size)

  abbrev pub in_io : ℕ → Bool
  in_io addr = leb emu_io_base addr && ltb addr (emu_io_base + emu_io_size)

  -- The NVM controller is always ready.
  unfoldable pub mem_read : Memory → ℕ → ℕ
  mem_read m addr =
      if addr == nvmctrl_base + status_offset
      then 0
      else if in_flash addr
      then m.flash (addr - flash_base)
      else if in_io addr
      then m.io (addr - emu_io_base)
      else 0

  abbrev write_io : Memory → ℕ → ℕ → Memory
  write_io m addr val =
      if in_io addr then record m { io = update m.io (addr - emu_io_base) val } else m

  -- a chip erase fills the flash with 0xFF
  abbrev erase_effect : ℕ → Memory → Memory
  erase_effect val m =
      if not (cmd_chip_erase == 0) && val == cmd_chip_erase
      then record m { flash = λ _. 0xFF }
      else m

  -- WRITE_FUSE copies the DATA register to the address in the ADDR register
  abbrev fuse_effect : ℕ → Memory → Memory
  fuse_effect val m =
      let fa = m.io fuse_addr_offset + m.io (fuse_addr_offset + 1) * 256 in
      if not (cmd_write_fuse == 0xFF) && val == cmd_write_fuse
      then write_io m fa (m.io fuse_data_offset)
      else m

  unfoldable pub mem_write : ℕ → ℕ → Memory → Memory
  mem_write addr val m =
      if in_flash addr
      then record m { flash = update m.flash (addr - flash_base) val }
      else if addr == nvmctrl_base + ctrla_offset
      then write_io (fuse_effect val (erase_effect val m)) addr val
      else write_io m addr val

  -- `n` bytes from `addr` up, with the 32-bit pointer wrapping around
  unfoldable pub read_range : Memory → ℕ → ℕ → List ℕ
  read_range m addr zero = []
  read_range m addr (suc n) = mem_read m addr ∷ read_range m ((addr + 1) % 2 ^ 32) n
