-- ===== src/Provider/Session.antt =====
-- The provider over the application: `self.avr` of nvmserialupdi.py is a `UpdiApplication`, whose
-- driver and data link are those that `read_device_info` chose.
use updi_programmer.Exec.{Exec, pure, ◌>>=◌}
use updi_programmer.ReadWrite.{ReadWrite}
use updi_programmer.Nvm.{Nvm}
use updi_programmer.App.{App, Config, Device, on_world, readwrite_of, nvm_of, read_device_info}
use updi_programmer.App.Mode
use updi_programmer.Provider.{Avr}

module _ {S : Type 0} (config : Config S) (dut : Device) where
  -- a call of the driver in use
  unfoldable pub on_nvm : (Nvm S → Exec S Unit) → Exec (App S) Unit
  unfolding on_world
  on_nvm call = on_world (λ app. call (nvm_of config dut app))

  -- a call of the memory access in use
  unfoldable pub on_readwrite : {A : Type 0} → (ReadWrite S → Exec S A) → Exec (App S) A
  unfolding on_world
  on_readwrite call = on_world (λ app. call (readwrite_of config app))

  abbrev pub avr_of : Avr (App S)
  avr_of = record {
    nvm = record {
      chip_erase = on_nvm (λ nvm. nvm.chip_erase);
      erase_flash_page = λ a. on_nvm (λ nvm. nvm.erase_flash_page a);
      erase_eeprom = on_nvm (λ nvm. nvm.erase_eeprom);
      erase_user_row = λ a n. on_nvm (λ nvm. nvm.erase_user_row a n);
      write_flash = λ a bytes. on_nvm (λ nvm. nvm.write_flash a bytes);
      write_user_row = λ a bytes. on_nvm (λ nvm. nvm.write_user_row a bytes);
      write_eeprom = λ a bytes. on_nvm (λ nvm. nvm.write_eeprom a bytes);
      write_fuse = λ a bytes. on_nvm (λ nvm. nvm.write_fuse a bytes);
    };
    read_device_info = read_device_info config >>= λ _. pure tt;
    read_data = λ a n. on_readwrite (λ rw'. Mode.read_data rw' a n);
    enter_progmode =
        on_readwrite (λ rw'. Mode.enter_progmode rw' config.clock config.fuel >>= λ _. pure tt);
    leave_progmode = on_readwrite Mode.leave_progmode;
    unlock = on_readwrite (λ rw'. Mode.unlock rw' config.clock config.fuel);
    write_user_row_locked_device = λ a bytes.
        on_readwrite
          (λ rw'. Mode.write_user_row_locked_device rw' config.clock config.fuel a bytes);
  }
