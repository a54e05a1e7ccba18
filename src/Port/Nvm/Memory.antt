-- ===== src/Port/Nvm/Memory.antt =====
-- The operations on memories of updi/updi_nvm.c.
use updi_programmer.Prelude.{
  ℕ, zero, suc, ◌+◌, ◌-◌, ◌/◌, ◌%◌, ◌^◌, Bool, true, false, not, ◌||◌, List, [], ◌∷◌, ◌++◌, ltb,
  leb, ◌==◌, if◌then◌else◌,
}
use updi_programmer.Prelude.Lists.{length}
use updi_programmer.Constants.{updi_max_repeat_size}
use updi_programmer.Nvm.Controller.{has_flags}
use updi_programmer.Devices.Table.{Row}
use updi_programmer.Port.Call.{
  Call, Status, give, fail, fail_if, outcome_of, settle, regardless, ◌>>=◌, ◌>>◌,
}
use updi_programmer.Port.Transport.{Transport}
use updi_programmer.Port.Link.{UpdiLink, ld_byte, st_byte, millis}
use updi_programmer.Port.Link.Data.{read_data, write_data, write_data_words}
use updi_programmer.Port.Nvm.{NvmVariantDesc, nvm_desc, nvm_max_poll_iters, has_expired}

module _ {S : Type 0} (transport : Transport S) where
  -- `updi_nvm_read`: `while(size)`, on fuel
  unfoldable pub read_loop : ℕ → ℕ → ℕ → List ℕ → Call (UpdiLink S) (List ℕ)
  unfolding ◌>>=◌
  read_loop fuel address zero acc = give acc
  read_loop zero address (suc n) acc = fail Status.out_of_fuel
  read_loop (suc fuel) address (suc n) acc = do
    let size = suc n
    let chunk = if ltb updi_max_repeat_size size then updi_max_repeat_size else size
    bytes ← read_data transport (address % 2 ^ 32) chunk
    read_loop fuel (address + chunk) (size - chunk) (acc ++ bytes)

  -- A round reads at least one byte, so the size is fuel enough.
  unfoldable pub read : ℕ → ℕ → Call (UpdiLink S) (List ℕ)
  unfolding read_loop
  read address size = read_loop size address size []

module _ {S : Type 0} (transport : Transport S) (device : Row) where
  abbrev desc : NvmVariantDesc
  desc = nvm_desc device

  unfoldable pub execute_nvm_command : ℕ → Call (UpdiLink S) Unit
  execute_nvm_command command =
      st_byte transport ((device.nvmctrl_base + desc.reg_ctrla) % 2 ^ 32) command

  -- one poll of `wait_nvm_ready`
  unfoldable pub poll_ready : Call (UpdiLink S) Bool
  unfolding ◌>>=◌ fail_if
  poll_ready = do
    status ← ld_byte transport ((device.nvmctrl_base + desc.reg_status) % 2 ^ 32)
    fail_if (has_flags status desc.status_wrerr_mask) Status.nvm
    give (not (has_flags status desc.status_busy_mask))

  -- The rounds that are left of the poll's backstop are the fuel.
  unfoldable pub ready_loop : ℕ → ℕ → ℕ → Call (UpdiLink S) Unit
  unfolding ◌>>=◌ poll_ready
  ready_loop zero start timeout_ms = fail Status.timeout
  ready_loop (suc iters) start timeout_ms = poll_ready >>= elim [
    | true ↦ give tt
    | false ↦ millis transport >>= λ now. elim (has_expired start now timeout_ms) [
      | true ↦ fail Status.timeout
      | false ↦ ready_loop iters start timeout_ms
    ]
  ]

  unfoldable pub wait_nvm_ready : ℕ → Call (UpdiLink S) Unit
  unfolding ◌>>=◌
  wait_nvm_ready timeout_ms = do
    start ← millis transport
    ready_loop nvm_max_poll_iters start timeout_ms

  -- the last wait, whose status is returned once the command is cleared
  unfoldable pub finish : ℕ → Bool → Call (UpdiLink S) Unit
  unfolding ◌>>=◌ outcome_of regardless settle
  finish timeout_ms clear = outcome_of (wait_nvm_ready timeout_ms) >>= λ ready.
      if clear then regardless (execute_nvm_command desc.cmd_nocmd) (settle ready) else settle ready

  unfoldable pub chip_erase : Call (UpdiLink S) Unit
  unfolding ◌>>=◌
  chip_erase = do
    wait_nvm_ready 100
    execute_nvm_command desc.cmd_chip_erase
    finish 500 desc.clear_cmd_after

  unfoldable pub erase_flash_page : ℕ → Call (UpdiLink S) Unit
  unfolding ◌>>=◌
  erase_flash_page address = do
    wait_nvm_ready 100
    write_data transport address (0xFF ∷ [])
    execute_nvm_command desc.cmd_erase_page
    finish 100 desc.clear_cmd_after

  unfoldable pub write_flash_page : ℕ → List ℕ → Call (UpdiLink S) Unit
  unfolding ◌>>=◌ fail_if
  write_flash_page address bytes = do
    fail_if (length bytes == 0 || not (length bytes % 2 == 0)) Status.param
    fail_if (ltb device.flash_page_size (length bytes)) Status.param
    wait_nvm_ready 100
    execute_nvm_command desc.cmd_page_buffer_clear
    wait_nvm_ready 100
    write_data_words transport address bytes
    execute_nvm_command desc.cmd_write_page
    finish 100 desc.clear_cmd_after

  unfoldable pub read_fuse : ℕ → Call (UpdiLink S) ℕ
  unfolding ◌>>=◌ fail_if
  read_fuse index = do
    fail_if (leb device.fuses_size index) Status.param
    ld_byte transport ((device.fuses_address + index) % 2 ^ 32)

  -- P:3: a fuse is written as a page of the EEPROM
  unfoldable pub write_fuse_eeprom : ℕ → ℕ → Call (UpdiLink S) Unit
  unfolding ◌>>=◌
  write_fuse_eeprom addr value = do
    wait_nvm_ready 100
    execute_nvm_command desc.cmd_eeprom_buffer_clear
    wait_nvm_ready 100
    write_data transport addr (value ∷ [])
    execute_nvm_command desc.cmd_eeprom_erase_write
    finish 100 true

  -- P:0: through the registers of the controller
  unfoldable pub write_fuse_registers : ℕ → ℕ → Call (UpdiLink S) Unit
  unfolding ◌>>=◌
  write_fuse_registers addr value = do
    wait_nvm_ready 100
    st_byte transport ((device.nvmctrl_base + desc.reg_addr) % 2 ^ 32) (addr % 256)
    st_byte transport ((device.nvmctrl_base + desc.reg_addr + 1) % 2 ^ 32) (addr / 256 % 256)
    st_byte transport ((device.nvmctrl_base + desc.reg_data) % 2 ^ 32) value
    execute_nvm_command desc.cmd_write_fuse
    wait_nvm_ready 100

  unfoldable pub write_fuse : ℕ → ℕ → Call (UpdiLink S) Unit
  unfolding ◌>>=◌ fail_if write_fuse_eeprom write_fuse_registers
  write_fuse index value = do
    fail_if (leb device.fuses_size index) Status.param
    let addr = (device.fuses_address + index) % 2 ^ 32
    if desc.fuse_via_eeprom then write_fuse_eeprom addr value else write_fuse_registers addr value
