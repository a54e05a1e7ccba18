-- ===== src/Port/Ends/Nvm.antt =====
-- The end of the operations on memories of updi/updi_nvm.c.
use updi_programmer.Prelude.{
  ℕ, zero, suc, ◌+◌, ◌-◌, ◌%◌, ◌/◌, ◌^◌, ◌≤◌, ◌≢◌, Bool, true, false, not, ◌||◌, List, [], ◌++◌,
  arith, ltb, leb, ◌==◌, if◌then◌else◌,
}
use updi_programmer.Prelude.Lists.{length}
use updi_programmer.Constants.{updi_max_repeat_size}
use updi_programmer.Nvm.Controller.{has_flags}
use updi_programmer.Devices.Table.{Row}
use updi_programmer.Port.Call.{Call, Outcome, failed, Status, outcome_of, settle, regardless, ◌>>=◌}
use updi_programmer.Port.Transport.{Transport}
use updi_programmer.Port.Link.{UpdiLink}
use updi_programmer.Port.Nvm.{NvmVariantDesc, nvm_desc, nvm_max_poll_iters, has_expired}
use updi_programmer.Port.Nvm.Memory.{
  read_loop, read, execute_nvm_command, poll_ready, ready_loop, wait_nvm_ready, finish, chip_erase,
  write_flash_page, read_fuse, write_fuse_eeprom, write_fuse_registers, write_fuse,
}
use updi_programmer.Port.Ends.{
  Ends, give-Ends, fail-Ends, if-Ends, branch-Ends, fail_if-Ends, bind-Ends,
}
use updi_programmer.Port.Ends.Link.{
  millis-Ends, ld_byte-Ends, st_byte-Ends, read_data-Ends, write_data_words-Ends, write_byte-Ends,
}

-- a chunk of 256, or what is left, leaves less
chunk_left :
    (fuel n : ℕ) → suc n ≤ suc fuel → suc n - (if ltb 256 (suc n) then 256 else suc n) ≤ fuel
chunk_left fuel n h = ground arith

module _ {S : Type 0} (transport : Transport S) where
  read_loop-Ends :
      (fuel a n : ℕ) (acc : List ℕ) → n ≤ fuel → Ends (read_loop transport fuel a n acc)
  unfolding read_loop
  read_loop-Ends zero a zero acc h = give-Ends acc
  read_loop-Ends (suc fuel) a zero acc h = give-Ends acc
  read_loop-Ends zero a (suc n) acc h = absurd (omega arith)
  read_loop-Ends (suc fuel) a (suc n) acc h =
      let chunk = if ltb updi_max_repeat_size (suc n) then updi_max_repeat_size else suc n in
      bind-Ends (read_data-Ends transport (a % 2 ^ 32) chunk) λ bytes.
        read_loop-Ends fuel (a + chunk) (suc n - chunk) (acc ++ bytes) (chunk_left fuel n h)

  pub read-Ends : (a n : ℕ) → Ends (read transport a n)
  unfolding read
  read-Ends a n = read_loop-Ends n a n [] (omega arith)

module _ {S : Type 0} (transport : Transport S) (device : Row) where
  abbrev desc : NvmVariantDesc
  desc = nvm_desc device

  execute-Ends : (command : ℕ) → Ends (execute_nvm_command transport device command)
  unfolding execute_nvm_command
  execute-Ends command =
      st_byte-Ends transport ((device.nvmctrl_base + desc.reg_ctrla) % 2 ^ 32) command

  poll_ready-Ends : Ends (poll_ready transport device)
  unfolding poll_ready
  poll_ready-Ends =
      bind-Ends (ld_byte-Ends transport ((device.nvmctrl_base + desc.reg_status) % 2 ^ 32))
        λ status.
          bind-Ends (fail_if-Ends (has_flags status desc.status_wrerr_mask) Status.nvm (λ h. cc))
            λ _. give-Ends (not (has_flags status desc.status_busy_mask))

  ready_loop-Ends : (iters start t : ℕ) → Ends (ready_loop transport device iters start t)
  unfolding ready_loop
  ready_loop-Ends zero start t = fail-Ends Status.timeout (λ h. cc)
  ready_loop-Ends (suc iters) start t = bind-Ends poll_ready-Ends λ ready.
      branch-Ends ready (give-Ends tt) (
        bind-Ends (millis-Ends transport) λ now.
          branch-Ends (has_expired start now t) (fail-Ends Status.timeout (λ h. cc))
            (ready_loop-Ends iters start t))

  wait-Ends : (t : ℕ) → Ends (wait_nvm_ready transport device t)
  unfolding wait_nvm_ready
  wait-Ends t =
      bind-Ends (millis-Ends transport) λ start. ready_loop-Ends nvm_max_poll_iters start t

  settled :
      (b : Bool) (m : Call (UpdiLink S) Unit) (r : Outcome Unit) (link : UpdiLink S)
      → r ≢ failed Status.out_of_fuel
      → ((if b then regardless m (settle r) else settle r) link).0 ≢ failed Status.out_of_fuel
  unfolding regardless settle
  settled true m r link ne = ne
  settled false m r link ne = ne

  finish-Ends : (t : ℕ) (clear : Bool) → Ends (finish transport device t clear)
  unfolding finish ◌>>=◌ outcome_of
  finish-Ends t clear = record {
    ends = λ link.
        settled clear (execute_nvm_command transport device desc.cmd_nocmd)
          (wait_nvm_ready transport device t link).0 (wait_nvm_ready transport device t link).1
          ((wait-Ends t).ends link);
  }

  pub chip_erase-Ends : Ends (chip_erase transport device)
  unfolding chip_erase
  chip_erase-Ends =
      bind-Ends (wait-Ends 100)
        λ _. bind-Ends (execute-Ends desc.cmd_chip_erase) λ _. finish-Ends 500 desc.clear_cmd_after

  pub write_flash_page-Ends :
      (a : ℕ) (bytes : List ℕ) → Ends (write_flash_page transport device a bytes)
  unfolding write_flash_page
  write_flash_page-Ends a bytes =
      bind-Ends
        (fail_if-Ends (length bytes == 0 || not (length bytes % 2 == 0)) Status.param (λ h. cc))
        λ _.
          bind-Ends
            (fail_if-Ends (ltb device.flash_page_size (length bytes)) Status.param (λ h. cc))
            λ _. bind-Ends (wait-Ends 100) λ _.
              bind-Ends (execute-Ends desc.cmd_page_buffer_clear) λ _.
                bind-Ends (wait-Ends 100) λ _.
                  bind-Ends (write_data_words-Ends transport a bytes) λ _.
                    bind-Ends (execute-Ends desc.cmd_write_page)
                      λ _. finish-Ends 100 desc.clear_cmd_after

  pub read_fuse-Ends : (index : ℕ) → Ends (read_fuse transport device index)
  unfolding read_fuse
  read_fuse-Ends index =
      bind-Ends (fail_if-Ends (leb device.fuses_size index) Status.param (λ h. cc))
        λ _. ld_byte-Ends transport ((device.fuses_address + index) % 2 ^ 32)

  write_fuse_eeprom-Ends : (addr v : ℕ) → Ends (write_fuse_eeprom transport device addr v)
  unfolding write_fuse_eeprom
  write_fuse_eeprom-Ends addr v = bind-Ends (wait-Ends 100) λ _.
      bind-Ends (execute-Ends desc.cmd_eeprom_buffer_clear) λ _. bind-Ends (wait-Ends 100) λ _.
        bind-Ends (write_byte-Ends transport addr v)
          λ _. bind-Ends (execute-Ends desc.cmd_eeprom_erase_write) λ _. finish-Ends 100 true

  write_fuse_registers-Ends : (addr v : ℕ) → Ends (write_fuse_registers transport device addr v)
  unfolding write_fuse_registers
  write_fuse_registers-Ends addr v =
      let register = device.nvmctrl_base + desc.reg_addr in
      let data_register = device.nvmctrl_base + desc.reg_data in
      bind-Ends (wait-Ends 100) λ _.
        bind-Ends (st_byte-Ends transport (register % 2 ^ 32) (addr % 256)) λ _.
          bind-Ends (st_byte-Ends transport ((register + 1) % 2 ^ 32) (addr / 256 % 256)) λ _.
            bind-Ends (st_byte-Ends transport (data_register % 2 ^ 32) v)
              λ _. bind-Ends (execute-Ends desc.cmd_write_fuse) λ _. wait-Ends 100

  pub write_fuse-Ends : (index v : ℕ) → Ends (write_fuse transport device index v)
  unfolding write_fuse
  write_fuse-Ends index v =
      let addr = (device.fuses_address + index) % 2 ^ 32 in
      bind-Ends (fail_if-Ends (leb device.fuses_size index) Status.param (λ h. cc)) λ _.
        if-Ends desc.fuse_via_eeprom (write_fuse_eeprom-Ends addr v)
          (write_fuse_registers-Ends addr v)
