-- ===== src/Nvm/P0.antt =====
-- `NvmUpdiP0` of reference/pymcuprog/serialupdi/nvmp0.py: tinyAVR 0, 1, 2 and megaAVR 0.
use updi_programmer.Prelude.{
  ℕ, zero, suc, ◌+◌, ◌/◌, ◌%◌, ◌^◌, Bool, not, List, [], ◌∷◌, bit_or, if◌then◌else◌,
}
use updi_programmer.Exec.{Exec, nvm_error, index_error, pure, raise, raise_if, ◌>>=◌, ◌>>◌}
use updi_programmer.Timeout.{poll_until}
use updi_programmer.Nvm.Controller.{Bus, has_flags, or_timeout}

abbrev pub nvmctrl_ctrla : ℕ
nvmctrl_ctrla = 0x00

abbrev pub nvmctrl_status : ℕ
nvmctrl_status = 0x02

abbrev pub nvmctrl_data : ℕ
nvmctrl_data = 0x06

abbrev pub nvmctrl_addr : ℕ
nvmctrl_addr = 0x08

abbrev pub nvmcmd_write_page : ℕ
nvmcmd_write_page = 0x01

abbrev pub nvmcmd_erase_page : ℕ
nvmcmd_erase_page = 0x02

abbrev pub nvmcmd_erase_write_page : ℕ
nvmcmd_erase_write_page = 0x03

abbrev pub nvmcmd_page_buffer_clr : ℕ
nvmcmd_page_buffer_clr = 0x04

abbrev pub nvmcmd_chip_erase : ℕ
nvmcmd_chip_erase = 0x05

abbrev pub nvmcmd_erase_eeprom : ℕ
nvmcmd_erase_eeprom = 0x06

abbrev pub nvmcmd_write_fuse : ℕ
nvmcmd_write_fuse = 0x07

abbrev pub status_write_error_bp : ℕ
status_write_error_bp = 2

abbrev pub status_eeprom_busy_bp : ℕ
status_eeprom_busy_bp = 1

abbrev pub status_flash_busy_bp : ℕ
status_flash_busy_bp = 0

module _ {S : Type 0} (bus : Bus S) where
  open bus.readwrite use {read_byte, write_byte, write_data, write_data_words}

  unfoldable pub poll_status : Exec S Bool
  unfolding ◌>>=◌ raise_if
  poll_status = do
    status ← read_byte (bus.nvmctrl_address + nvmctrl_status)
    raise_if (has_flags status (2 ^ status_write_error_bp)) (nvm_error 1)
    pure (not (has_flags status (bit_or (2 ^ status_eeprom_busy_bp) (2 ^ status_flash_busy_bp))))

  unfoldable pub wait_nvm_ready : Exec S Bool
  unfolding poll_until poll_status
  wait_nvm_ready = poll_until bus.clock bus.fuel 100 poll_status

  -- the wait with the raise that follows each call of it
  unfoldable pub expect_ready : Exec S Unit
  unfolding ◌>>=◌ wait_nvm_ready or_timeout
  expect_ready = wait_nvm_ready >>= or_timeout

  unfoldable pub execute_nvm_command : ℕ → Exec S Unit
  execute_nvm_command command = write_byte (bus.nvmctrl_address + nvmctrl_ctrla) command

  unfoldable pub chip_erase : Exec S Unit
  unfolding ◌>>=◌ expect_ready execute_nvm_command
  chip_erase = do expect_ready; execute_nvm_command nvmcmd_chip_erase; expect_ready

  unfoldable pub erase_flash_page : ℕ → Exec S Unit
  unfolding ◌>>=◌ expect_ready execute_nvm_command
  erase_flash_page address = do
    expect_ready
    write_data address (0xFF ∷ [])
    execute_nvm_command nvmcmd_erase_page
    expect_ready

  unfoldable pub erase_eeprom : Exec S Unit
  unfolding ◌>>=◌ expect_ready execute_nvm_command
  erase_eeprom = do expect_ready; execute_nvm_command nvmcmd_erase_eeprom; expect_ready

  -- `for offset in range(size)`: a dummy write to each location, from `address` up
  unfoldable pub dummy_writes : ℕ → ℕ → Exec S Unit
  unfolding ◌>>=◌
  dummy_writes address zero = pure tt
  dummy_writes address (suc n) = do write_data address (0xFF ∷ []); dummy_writes (address + 1) n

  unfoldable pub erase_user_row : ℕ → ℕ → Exec S Unit
  unfolding ◌>>=◌ expect_ready execute_nvm_command dummy_writes
  erase_user_row address size = do
    expect_ready
    dummy_writes address size
    execute_nvm_command nvmcmd_erase_page
    expect_ready

  unfoldable pub write_nvm : ℕ → List ℕ → Bool → ℕ → Exec S Unit
  unfolding ◌>>=◌ expect_ready execute_nvm_command
  write_nvm address bytes use_word_access nvmcommand = do
    expect_ready
    execute_nvm_command nvmcmd_page_buffer_clr
    expect_ready
    if use_word_access then write_data_words address bytes else write_data address bytes
    execute_nvm_command nvmcommand
    expect_ready

  unfoldable pub write_flash : ℕ → List ℕ → Exec S Unit
  unfolding write_nvm
  write_flash address bytes = write_nvm address bytes Bool.true nvmcmd_write_page

  unfoldable pub write_eeprom : ℕ → List ℕ → Exec S Unit
  unfolding write_nvm
  write_eeprom address bytes = write_nvm address bytes Bool.false nvmcmd_erase_write_page

  unfoldable pub write_user_row : ℕ → List ℕ → Exec S Unit
  unfolding write_eeprom
  write_user_row address bytes = write_eeprom address bytes

  -- `data[0]`, read after the address has gone out
  unfoldable pub load_fuse : List ℕ → Exec S Unit
  load_fuse [] = raise index_error
  load_fuse (b ∷ _) = write_byte (bus.nvmctrl_address + nvmctrl_data) (b % 256)

  unfoldable pub write_fuse : ℕ → List ℕ → Exec S Unit
  unfolding ◌>>=◌ expect_ready execute_nvm_command load_fuse
  write_fuse address bytes = do
    expect_ready
    write_byte (bus.nvmctrl_address + nvmctrl_addr) (address % 256)
    write_byte (bus.nvmctrl_address + nvmctrl_addr + 1) (address / 256 % 256)
    load_fuse bytes
    execute_nvm_command nvmcmd_write_fuse
    expect_ready
