-- ===== src/Nvm/Guard/Paged.antt =====
-- The operations of nvmp3.py and nvmp5.py under the discipline of the controller.
use updi_programmer.Prelude.{ℕ, Bool, List, [], ◌∷◌, refl}
use updi_programmer.Exec.{Exec, ◌>>◌}
use updi_programmer.Exec.Triple.{Triple-bind}
use updi_programmer.Nvm.Controller.{Bus, Registers, wait_nvm_ready, execute_nvm_command}
use updi_programmer.Nvm.Log.{Logged, logged}
use updi_programmer.Nvm.Guard.{Rule, Good, Ready}
use updi_programmer.Nvm.Guard.Rules.{Guards, Guards-then, or_timeout-Ready, or_timeout-Good}
use updi_programmer.Nvm.Guard.Access.{
  rule_of, wait_nvm_ready-Watches, command-Guards, clear-Guards, write_data-Guards, load-Guards,
}
use updi_programmer.Nvm.Paged.{
  expect_ready, finish, chip_erase, erase_flash_page, erase_eeprom, write_nvm, nvmcmd_nocmd,
  nvmcmd_chip_erase, nvmcmd_flash_page_erase, nvmcmd_eeprom_erase,
}

module _ {S : Type 0} (registers : Registers) (bus : Bus S) where
  abbrev rule : Rule
  rule = rule_of registers bus

  -- from a good log to a good log
  abbrev pub Disciplined : Exec (Logged S) Unit → Type 0
  Disciplined m = Guards rule bus (Good rule) m (Good rule)

  infixr 6 ◌then◌
  abbrev ◌then◌ :
      {P Q R : Logged S → Type 0} {m n : Exec (Logged S) Unit}
      → Guards rule bus P m Q
      → Guards rule bus Q n R
      → Guards rule bus P (m >> n) R
  ◌then◌ {m = m} {n = n} first next = Guards-then rule bus m n first next

  expect : Guards rule bus (Good rule) (expect_ready registers (logged bus)) (Ready rule)
  unfolding expect_ready
  expect = or_timeout-Ready rule bus _ (wait_nvm_ready-Watches registers bus)

  finished : Disciplined (finish registers (logged bus))
  unfolding finish execute_nvm_command
  finished =
      Triple-bind (wait_nvm_ready registers (logged bus)) _ (wait_nvm_ready-Watches registers bus)
        λ status. record {
          run = λ s h.
              (clear-Guards rule bus nvmcmd_nocmd refl then or_timeout-Good rule bus status).run s
                h.0;
        }

  pub chip_erase-Disciplined : Disciplined (chip_erase registers (logged bus))
  unfolding chip_erase execute_nvm_command
  chip_erase-Disciplined = expect then command-Guards rule bus nvmcmd_chip_erase then finished

  pub erase_eeprom-Disciplined : Disciplined (erase_eeprom registers (logged bus))
  unfolding erase_eeprom execute_nvm_command
  erase_eeprom-Disciplined = expect then command-Guards rule bus nvmcmd_eeprom_erase then finished

  pub erase_flash_page-Disciplined :
      (a : ℕ) → Disciplined (erase_flash_page registers (logged bus) a)
  unfolding erase_flash_page execute_nvm_command
  erase_flash_page-Disciplined a =
      expect
      then write_data-Guards rule bus a (0xFF ∷ [])
      then command-Guards rule bus nvmcmd_flash_page_erase
      then finished

  -- a clearing command right after a wait
  cleared :
      Guards rule bus
        (Ready rule)
        (execute_nvm_command registers (logged bus) nvmcmd_nocmd)
        (Good rule)
  unfolding execute_nvm_command
  cleared = record { run = λ s h. (clear-Guards rule bus nvmcmd_nocmd refl).run s h.0 }

  pub write_nvm-Disciplined :
      (a : ℕ) (bytes : List ℕ) (by_words : Bool) (commit clear : ℕ)
      → Disciplined (write_nvm registers (logged bus) a bytes by_words commit clear)
  unfolding write_nvm execute_nvm_command
  write_nvm-Disciplined a bytes by_words commit clear =
      expect
      then command-Guards rule bus clear
      then expect
      then load-Guards rule bus a bytes by_words
      then command-Guards rule bus commit
      then expect
      then cleared
