-- ===== src/Nvm/Controller.antt =====
-- What an NVM driver works on, and the two methods on which each of nvmp2.py to nvmp5.py rests:
-- `wait_nvm_ready` and `execute_nvm_command`.
use updi_programmer.Prelude.{ℕ, ◌+◌, ◌/◌, ◌^◌, Bool, not, bit_and, bit_or, ◌==◌}
use updi_programmer.Exec.{Exec, nvm_error, nvm_timeout, pure, raise_if, ◌>>=◌, ◌>>◌}
use updi_programmer.Serial.{Clock}
use updi_programmer.ReadWrite.{ReadWrite}
use updi_programmer.Timeout.{poll_until}

-- `self.readwrite`, `self.device.nvmctrl_address`, and the clock with the fuel of its polls
pub record Bus (S : Type 0) : Type 0 where
  pub readwrite : ReadWrite S
  pub clock : Clock S
  pub fuel : ℕ
  pub nvmctrl_address : ℕ

-- the constants in which the classes differ
pub record Registers : Type 0 where
  pub ctrla : ℕ
  pub status : ℕ
  pub write_error_bm : ℕ
  pub write_error_bp : ℕ
  pub eeprom_busy_bp : ℕ
  pub flash_busy_bp : ℕ

-- STATUS & mask, as a truth value
abbrev pub has_flags : ℕ → ℕ → Bool
has_flags status mask = not (bit_and status mask == 0)

module _ {S : Type 0} where
  -- `if not self.wait_nvm_ready(): raise PymcuprogSerialUpdiNvmTimeout`
  unfoldable pub or_timeout : Bool → Exec S Unit
  unfolding raise_if
  or_timeout ready = raise_if (not ready) nvm_timeout

module _ {S : Type 0} (registers : Registers) (bus : Bus S) where
  -- the body of the loop of `wait_nvm_ready`
  unfoldable pub poll_status : Exec S Bool
  unfolding ◌>>=◌ raise_if
  poll_status = do
    status ← bus.readwrite.read_byte (bus.nvmctrl_address + registers.status)
    raise_if (has_flags status registers.write_error_bm)
        (nvm_error (status / 2 ^ registers.write_error_bp))
    pure (
        not
          (has_flags status (bit_or (2 ^ registers.eeprom_busy_bp) (2 ^ registers.flash_busy_bp))))

  -- with the default of 100 ms
  unfoldable pub wait_nvm_ready : Exec S Bool
  unfolding poll_until poll_status
  wait_nvm_ready = poll_until bus.clock bus.fuel 100 poll_status

  unfoldable pub execute_nvm_command : ℕ → Exec S Unit
  execute_nvm_command command =
      bus.readwrite.write_byte (bus.nvmctrl_address + registers.ctrla) command
