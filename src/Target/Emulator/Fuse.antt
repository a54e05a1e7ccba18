-- ===== src/Target/Emulator/Fuse.antt =====
-- A fuse write of updi/updi_nvm.c through the registers of P:0, run on the emulator.
use updi_programmer.Prelude.{ℕ, ◌+◌, ◌/◌, ◌%◌, ◌^◌, ◌<◌, ◌≤◌, ◌≡◌, ap, Bool, false, arith, leb}
use updi_programmer.Devices.Table.{Row, Variant, updi_nvm_variant_p0}
use updi_programmer.Port.Call.{done, fail_if}
use updi_programmer.Port.Link.{st_byte}
use updi_programmer.Port.Nvm.{NvmVariantDesc, nvm_desc_p0, nvm_desc, variant_desc}
use updi_programmer.Port.Nvm.Memory.{write_fuse, write_fuse_registers}
use updi_programmer.Target.Memory.{Preset, mem_read, mem_write}
use updi_programmer.Target.Device.{Core}
use updi_programmer.Target.FlashP0.{HasP0, register_write, fuse_command}
use updi_programmer.Target.Emulator.{emu_transport, at_rest, reach}
use updi_programmer.Target.Emulator.Direct.{st_byte_lem}
use updi_programmer.Target.Emulator.Nvm.{Describes, register_inside, wait_ready_lem, command_lem}

-- a constant of P:0
p0_field :
    {A : Type 0} {v : Variant}
    → v ≡ updi_nvm_variant_p0
    → (field : NvmVariantDesc → A) → field (variant_desc v) ≡ field nvm_desc_p0
unfolding variant_desc
p0_field e field = ap (λ w. field (variant_desc w)) e

module _ (preset : Preset) (d : Row) (h : Describes preset d) (wait : ℕ) (wide : Bool)
    (p0 : HasP0 preset (reach wide)) where
  -- a store to a register of the controller
  register_lem :
      (ack : Bool) (r v now : ℕ) (e : Core)
      → r < 16
      → st_byte
          (emu_transport preset)
          ((d.nvmctrl_base + r) % 2 ^ 32)
          v
          (at_rest wide wait ack e now)
        ≡ (
          done tt,
          at_rest wide wait ack
              (record e { memory = mem_write preset (preset.nvmctrl_base + r) v e.memory })
              now,
        )
  register_lem ack r v now e b =
      rw (register_inside preset d h wait wide wide r b) at
        (st_byte_lem preset wait ack now wide ((d.nvmctrl_base + r) % 2 ^ 32) v e)

  -- the calls, one after the other
  stored :
      (variant : d.nvm_variant ≡ updi_nvm_variant_p0) (ack : Bool) (index v now : ℕ) (e : Core)
      → index < d.fuses_size
      → 0x1010 ≤ d.fuses_address + index
      → d.fuses_address + index < 0x1600
      → let a = d.fuses_address + index in
        let b = preset.nvmctrl_base in
        let e1 = record e { memory = mem_write preset (b + 8) (a % 256) e.memory } in
        let e2 = record e1 { memory = mem_write preset (b + 9) (a / 256 % 256) e1.memory } in
        let e3 = record e2 { memory = mem_write preset (b + 6) v e2.memory } in
        write_fuse (emu_transport preset) d index v (at_rest wide wait ack e now) ≡ (
          done tt,
          at_rest wide wait ack
              (record e3 { memory = mem_write preset b 7 e3.memory })
              (((now + 1) % 2 ^ 32 + 1) % 2 ^ 32),
        )
  unfolding write_fuse write_fuse_registers fail_if
  stored variant ack index v now e size lo hi =
      let a = d.fuses_address + index in
      let b = preset.nvmctrl_base in
      let n1 = (now + 1) % 2 ^ 32 in
      let e1 = record e { memory = mem_write preset (b + 8) (a % 256) e.memory } in
      let e2 = record e1 { memory = mem_write preset (b + 9) (a / 256 % 256) e1.memory } in
      let e3 = record e2 { memory = mem_write preset (b + 6) v e2.memory } in
      let within : leb d.fuses_size index ≡ false = ground arith in
      let small : a % 2 ^ 32 ≡ a = omega arith in
      let last : d.nvmctrl_base + 8 + 1 ≡ d.nvmctrl_base + 9 = omega arith in
      let addr : (nvm_desc d).reg_addr ≡ 8 = p0_field variant (λ x. x.reg_addr) in
      let content : (nvm_desc d).reg_data ≡ 6 = p0_field variant (λ x. x.reg_data) in
      let command : (nvm_desc d).cmd_write_fuse ≡ 7 = p0_field variant (λ x. x.cmd_write_fuse) in
      let registers : (nvm_desc d).fuse_via_eeprom ≡ false =
        p0_field variant (λ x. x.fuse_via_eeprom) in
      rw (
        within,
        small,
        registers,
        addr,
        content,
        command,
        wait_ready_lem preset d h wait wide ack 100 now e,
        register_lem ack 8 (a % 256) n1 e (omega arith),
        last,
        register_lem ack 9 (a / 256 % 256) n1 e1 (omega arith),
        register_lem ack 6 v n1 e2 (omega arith),
        command_lem preset d h wait wide ack 7 n1 e3,
        wait_ready_lem preset d h wait wide ack 100 n1
            (record e3 { memory = mem_write preset b 7 e3.memory }),
      )

  -- On an emulator at rest with the controller of P:0, which the device's row describes, `write_fuse` of
  -- a fuse that the device has, at an address of the I/O region above the NVM registers, returns, and
  -- the byte at the address is the one written.
  pub port_write_fuse-holds :
      (variant : d.nvm_variant ≡ updi_nvm_variant_p0) (ack : Bool) (index v now : ℕ) (e : Core)
      → index < d.fuses_size
      → 0x1010 ≤ d.fuses_address + index
      → d.fuses_address + index < 0x1600
      → (e' : Core) × (now' : ℕ) × (write_fuse
            (emu_transport preset)
            d
            index
            v
            (at_rest wide wait ack e now)
          ≡ (done tt, at_rest wide wait ack e' now'))
        × (mem_read preset e'.memory (d.fuses_address + index) ≡ v)
  port_write_fuse-holds variant ack index v now e size lo hi =
      let b = preset.nvmctrl_base in
      let a = d.fuses_address + index in
      let n1 = (now + 1) % 2 ^ 32 in
      let e1 = record e { memory = mem_write preset (b + 8) (a % 256) e.memory } in
      let e2 = record e1 { memory = mem_write preset (b + 9) (a / 256 % 256) e1.memory } in
      let e3 = record e2 { memory = mem_write preset (b + 6) v e2.memory } in
      let e4 = record e3 { memory = mem_write preset b 7 e3.memory } in
      let m1 =
        register_write preset (reach wide) p0 8 (a % 256) e.memory (omega arith) (omega arith) in
      let m2 =
        register_write preset (reach wide) p0 9 (a / 256 % 256) e1.memory (omega arith)
          (omega arith) in
      let m3 = register_write preset (reach wide) p0 6 v e2.memory (omega arith) (omega arith) in
      let here : b + 0 ≡ b = omega arith in
      (
        e4,
        (n1 + 1) % 2 ^ 32,
        stored variant ack index v now e size lo hi,
        rw here at (
            fuse_command preset (reach wide) p0 a v e3.memory lo hi (rw (m3, m2, m1) (omega arith))
              (rw m3)),
      )
