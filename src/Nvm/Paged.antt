-- ===== src/Nvm/Paged.antt =====
-- `NvmUpdiP3` of reference/pymcuprog/serialupdi/nvmp3.py, and `NvmUpdiP5` of nvmp5.py: AVR EA and
-- EB. A page is loaded into a buffer, and committed by a command.
use updi_programmer.Prelude.{ℕ, Bool, List, [], ◌∷◌, if◌then◌else◌}
use updi_programmer.Exec.{Exec, ◌>>=◌, ◌>>◌}
use updi_programmer.Nvm.Controller.{Bus, Registers, or_timeout, wait_nvm_ready, execute_nvm_command}

abbrev pub nvmcmd_nocmd : ℕ
nvmcmd_nocmd = 0x00

abbrev pub nvmcmd_flash_page_write : ℕ
nvmcmd_flash_page_write = 0x04

abbrev pub nvmcmd_flash_page_erase : ℕ
nvmcmd_flash_page_erase = 0x08

abbrev pub nvmcmd_flash_page_buffer_clear : ℕ
nvmcmd_flash_page_buffer_clear = 0x0F

abbrev pub nvmcmd_eeprom_page_erase_write : ℕ
nvmcmd_eeprom_page_erase_write = 0x15

abbrev pub nvmcmd_eeprom_page_buffer_clear : ℕ
nvmcmd_eeprom_page_buffer_clear = 0x1F

abbrev pub nvmcmd_chip_erase : ℕ
nvmcmd_chip_erase = 0x20

abbrev pub nvmcmd_eeprom_erase : ℕ
nvmcmd_eeprom_erase = 0x30

module _ {S : Type 0} (registers : Registers) (bus : Bus S) where
  open bus.readwrite use {write_data, write_data_words}

  -- `if not self.wait_nvm_ready(): raise`
  unfoldable pub expect_ready : Exec S Unit
  unfolding ◌>>=◌ wait_nvm_ready or_timeout
  expect_ready = wait_nvm_ready registers bus >>= or_timeout

  -- the end of every erase: the command is removed also where the wait timed out
  unfoldable pub finish : Exec S Unit
  unfolding ◌>>=◌ wait_nvm_ready execute_nvm_command or_timeout
  finish = do
    status ← wait_nvm_ready registers bus
    execute_nvm_command registers bus nvmcmd_nocmd
    or_timeout status

  unfoldable pub chip_erase : Exec S Unit
  unfolding ◌>>=◌ expect_ready execute_nvm_command finish
  chip_erase = do expect_ready; execute_nvm_command registers bus nvmcmd_chip_erase; finish

  unfoldable pub erase_flash_page : ℕ → Exec S Unit
  unfolding ◌>>=◌ expect_ready execute_nvm_command finish
  erase_flash_page address = do
    expect_ready
    write_data address (0xFF ∷ [])
    execute_nvm_command registers bus nvmcmd_flash_page_erase
    finish

  unfoldable pub erase_eeprom : Exec S Unit
  unfolding ◌>>=◌ expect_ready execute_nvm_command finish
  erase_eeprom = do expect_ready; execute_nvm_command registers bus nvmcmd_eeprom_erase; finish

  -- The size is not used.
  unfoldable pub erase_user_row : ℕ → ℕ → Exec S Unit
  unfolding erase_flash_page
  erase_user_row address size = erase_flash_page address

  unfoldable pub write_nvm : ℕ → List ℕ → Bool → ℕ → ℕ → Exec S Unit
  unfolding ◌>>=◌ expect_ready execute_nvm_command
  write_nvm address bytes use_word_access nvmcommand erasebuffer_command = do
    expect_ready
    execute_nvm_command registers bus erasebuffer_command
    expect_ready
    if use_word_access then write_data_words address bytes else write_data address bytes
    execute_nvm_command registers bus nvmcommand
    expect_ready
    execute_nvm_command registers bus nvmcmd_nocmd

  unfoldable pub write_flash : ℕ → List ℕ → Exec S Unit
  unfolding write_nvm
  write_flash address bytes =
      write_nvm address bytes Bool.true nvmcmd_flash_page_write nvmcmd_flash_page_buffer_clear

  unfoldable pub write_user_row : ℕ → List ℕ → Exec S Unit
  unfolding write_nvm
  write_user_row address bytes =
      write_nvm address bytes Bool.true nvmcmd_flash_page_write nvmcmd_flash_page_buffer_clear

  unfoldable pub write_eeprom : ℕ → List ℕ → Exec S Unit
  unfolding write_nvm
  write_eeprom address bytes =
      write_nvm address bytes Bool.false nvmcmd_eeprom_page_erase_write
        nvmcmd_eeprom_page_buffer_clear

  unfoldable pub write_fuse : ℕ → List ℕ → Exec S Unit
  unfolding write_eeprom
  write_fuse address bytes = write_eeprom address bytes
