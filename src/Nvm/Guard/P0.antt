-- ===== src/Nvm/Guard/P0.antt =====
-- The operations of nvmp0.py under the discipline of the controller.
use updi_programmer.Prelude.{
  ℕ, zero, suc, ◌+◌, ◌^◌, Bool, false, not, ◌&&◌, List, [], ◌∷◌, bit_or, arith,
}
use updi_programmer.Exec.{Exec, Result, ok, err, pure, raise, ◌>>◌}
use updi_programmer.Exec.Triple.{Post}
use updi_programmer.Nvm.Controller.{Bus, has_flags}
use updi_programmer.Nvm.Log.{Logged, logged}
use updi_programmer.Nvm.Guard.{Rule, Good, Ready}
use updi_programmer.Nvm.Guard.Rules.{
  Guards, OnError, Watches, Guards-then, or_timeout-Ready, poll_until-Watches,
}
use updi_programmer.Nvm.Guard.Access.{
  poll-Watches, command-Guards, write_data-Guards, load-Guards, register-Guards,
}
use updi_programmer.Nvm.P0.{
  nvmctrl_ctrla, nvmctrl_status, nvmcmd_erase_page, nvmcmd_page_buffer_clr, nvmcmd_chip_erase,
  nvmcmd_erase_eeprom, nvmcmd_write_fuse, status_write_error_bp, status_eeprom_busy_bp,
  status_flash_busy_bp, wait_nvm_ready, expect_ready, execute_nvm_command, chip_erase,
  erase_flash_page, erase_eeprom, dummy_writes, erase_user_row, write_nvm, load_fuse, write_fuse,
}

module _ {S : Type 0} (bus : Bus S) where
  abbrev busy_mask : ℕ
  busy_mask = bit_or (2 ^ status_eeprom_busy_bp) (2 ^ status_flash_busy_bp)

  -- This controller has no command that only clears.
  abbrev pub rule_p0 : Rule
  rule_p0 = record {
    status_address = bus.nvmctrl_address + nvmctrl_status;
    ctrla_address = bus.nvmctrl_address + nvmctrl_ctrla;
    idle = λ v. not (has_flags v (2 ^ status_write_error_bp)) && not (has_flags v busy_mask);
    is_clear = λ _. false;
  }

  abbrev pub Disciplined : Exec (Logged S) Unit → Type 0
  Disciplined m = Guards rule_p0 bus (Good rule_p0) m (Good rule_p0)

  infixr 6 ◌then◌
  abbrev ◌then◌ :
      {P Q R : Logged S → Type 0} {m n : Exec (Logged S) Unit}
      → Guards rule_p0 bus P m Q
      → Guards rule_p0 bus Q n R
      → Guards rule_p0 bus P (m >> n) R
  ◌then◌ {m = m} {n = n} first next = Guards-then rule_p0 bus m n first next

  wait-Watches : Watches rule_p0 bus (wait_nvm_ready (logged bus))
  unfolding wait_nvm_ready
  wait-Watches = poll_until-Watches rule_p0 bus bus.fuel 100 _ (
      poll-Watches rule_p0 bus (λ v. has_flags v (2 ^ status_write_error_bp))
        (λ v. has_flags v busy_mask) _ (λ v f q. rw (f, q)))

  expect : Guards rule_p0 bus (Good rule_p0) (expect_ready (logged bus)) (Ready rule_p0)
  unfolding expect_ready
  expect = or_timeout-Ready rule_p0 bus _ wait-Watches

  -- the end of an operation
  finished : Disciplined (expect_ready (logged bus))
  finished = record { run = λ s h. weak (expect_ready (logged bus) s) (expect.run s h) }
    where
      weak :
          (r : Result Unit × Logged S)
          → Post (λ _. Ready rule_p0) (OnError rule_p0 bus) r
          → Post (λ _. Good rule_p0) (OnError rule_p0 bus) r
      weak (ok _, s) h = h.0
      weak (err _, s) h = h

  pub chip_erase-Disciplined : Disciplined (chip_erase (logged bus))
  unfolding chip_erase execute_nvm_command
  chip_erase-Disciplined = expect then command-Guards rule_p0 bus nvmcmd_chip_erase then finished

  pub erase_eeprom-Disciplined : Disciplined (erase_eeprom (logged bus))
  unfolding erase_eeprom execute_nvm_command
  erase_eeprom-Disciplined =
      expect then command-Guards rule_p0 bus nvmcmd_erase_eeprom then finished

  pub erase_flash_page-Disciplined : (a : ℕ) → Disciplined (erase_flash_page (logged bus) a)
  unfolding erase_flash_page execute_nvm_command
  erase_flash_page-Disciplined a =
      expect
      then write_data-Guards rule_p0 bus a (0xFF ∷ [])
      then command-Guards rule_p0 bus nvmcmd_erase_page
      then finished

  dummy_writes-Guards :
      (a n : ℕ) → Guards rule_p0 bus (Ready rule_p0) (dummy_writes (logged bus) a n) (Ready rule_p0)
  unfolding dummy_writes pure
  dummy_writes-Guards a zero = record { run = λ s h. h }
  dummy_writes-Guards a (suc n) =
      write_data-Guards rule_p0 bus a (0xFF ∷ []) then dummy_writes-Guards (a + 1) n

  pub erase_user_row-Disciplined : (a n : ℕ) → Disciplined (erase_user_row (logged bus) a n)
  unfolding erase_user_row execute_nvm_command
  erase_user_row-Disciplined a n =
      expect
      then dummy_writes-Guards a n
      then command-Guards rule_p0 bus nvmcmd_erase_page
      then finished

  pub write_nvm-Disciplined :
      (a : ℕ) (bytes : List ℕ) (by_words : Bool) (commit : ℕ)
      → Disciplined (write_nvm (logged bus) a bytes by_words commit)
  unfolding write_nvm execute_nvm_command
  write_nvm-Disciplined a bytes by_words commit =
      expect
      then command-Guards rule_p0 bus nvmcmd_page_buffer_clr
      then expect
      then load-Guards rule_p0 bus a bytes by_words
      then command-Guards rule_p0 bus commit
      then finished

  load_fuse-Guards :
      (bytes : List ℕ)
      → Guards rule_p0 bus (Ready rule_p0) (load_fuse (logged bus) bytes) (Ready rule_p0)
  unfolding load_fuse raise
  load_fuse-Guards [] = record { run = λ s h. h.0 }
  load_fuse-Guards (b ∷ _) = register-Guards rule_p0 bus _ _ (omega arith)

  pub write_fuse-Disciplined :
      (a : ℕ) (bytes : List ℕ) → Disciplined (write_fuse (logged bus) a bytes)
  unfolding write_fuse execute_nvm_command
  write_fuse-Disciplined a bytes =
      expect
      then register-Guards rule_p0 bus _ _ (omega arith)
      then register-Guards rule_p0 bus _ _ (omega arith)
      then load_fuse-Guards bytes
      then command-Guards rule_p0 bus nvmcmd_write_fuse
      then finished
