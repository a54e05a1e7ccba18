-- ===== src/Nvm.antt =====
-- The NVM drivers: the interface and the base class of reference/pymcuprog/serialupdi/nvm.py, and
-- what the drivers nvmp0.py to nvmp5.py are built on. P:0 is `Nvm.P0`; P:2 and P:4 differ only in
-- constants and share `Nvm.Word`, and so do P:3 and P:5 with `Nvm.Paged`.
pub mod Controller
pub mod Log
pub mod Guard
pub mod Cleared
pub mod P0
pub mod Word
pub mod Paged
use updi_programmer.Prelude.{ℕ, List}
use updi_programmer.Exec.{Exec, not_implemented, raise}
use Controller.{Bus, Registers}

-- The operations of `NvmUpdi`.
pub record Nvm (S : Type 0) : Type 0 where
  pub chip_erase : Exec S Unit
  pub erase_flash_page : ℕ → Exec S Unit
  pub erase_eeprom : Exec S Unit
  pub erase_user_row : ℕ → ℕ → Exec S Unit
  pub write_flash : ℕ → List ℕ → Exec S Unit
  pub write_user_row : ℕ → List ℕ → Exec S Unit
  pub write_eeprom : ℕ → List ℕ → Exec S Unit
  pub write_fuse : ℕ → List ℕ → Exec S Unit

module _ {S : Type 0} where
  -- the base class: every operation raises
  abbrev pub nvm_updi : Nvm S
  nvm_updi = record {
    chip_erase = raise not_implemented;
    erase_flash_page = λ _. raise not_implemented;
    erase_eeprom = raise not_implemented;
    erase_user_row = λ _ _. raise not_implemented;
    write_flash = λ _ _. raise not_implemented;
    write_user_row = λ _ _. raise not_implemented;
    write_eeprom = λ _ _. raise not_implemented;
    write_fuse = λ _ _. raise not_implemented;
  }

  abbrev pub nvm_p0 : Bus S → Nvm S
  nvm_p0 bus = record {
    chip_erase = P0.chip_erase bus;
    erase_flash_page = P0.erase_flash_page bus;
    erase_eeprom = P0.erase_eeprom bus;
    erase_user_row = P0.erase_user_row bus;
    write_flash = P0.write_flash bus;
    write_user_row = P0.write_user_row bus;
    write_eeprom = P0.write_eeprom bus;
    write_fuse = P0.write_fuse bus;
  }

  abbrev pub nvm_word : Registers → Bus S → Nvm S
  nvm_word registers bus = record {
    chip_erase = Word.chip_erase registers bus;
    erase_flash_page = Word.erase_flash_page registers bus;
    erase_eeprom = Word.erase_eeprom registers bus;
    erase_user_row = Word.erase_user_row registers bus;
    write_flash = Word.write_flash registers bus;
    write_user_row = Word.write_user_row registers bus;
    write_eeprom = Word.write_eeprom registers bus;
    write_fuse = Word.write_fuse registers bus;
  }

  abbrev pub nvm_paged : Registers → Bus S → Nvm S
  nvm_paged registers bus = record {
    chip_erase = Paged.chip_erase registers bus;
    erase_flash_page = Paged.erase_flash_page registers bus;
    erase_eeprom = Paged.erase_eeprom registers bus;
    erase_user_row = Paged.erase_user_row registers bus;
    write_flash = Paged.write_flash registers bus;
    write_user_row = Paged.write_user_row registers bus;
    write_eeprom = Paged.write_eeprom registers bus;
    write_fuse = Paged.write_fuse registers bus;
  }

-- The registers of each class: addresses from NVMCTRL, and the bits of STATUS.
abbrev pub registers_p2 : Registers
registers_p2 = record {
  ctrla = 0x00;
  status = 0x02;
  write_error_bm = 0x30;
  write_error_bp = 4;
  eeprom_busy_bp = 1;
  flash_busy_bp = 0;
}

abbrev pub registers_p3 : Registers
registers_p3 = record {
  ctrla = 0x00;
  status = 0x06;
  write_error_bm = 0x70;
  write_error_bp = 4;
  eeprom_busy_bp = 0;
  flash_busy_bp = 1;
}

abbrev pub registers_p4 : Registers
registers_p4 = record {
  ctrla = 0x00;
  status = 0x06;
  write_error_bm = 0x70;
  write_error_bp = 4;
  eeprom_busy_bp = 0;
  flash_busy_bp = 1;
}

abbrev pub registers_p5 : Registers
registers_p5 = record {
  ctrla = 0x00;
  status = 0x06;
  write_error_bm = 0x70;
  write_error_bp = 4;
  eeprom_busy_bp = 0;
  flash_busy_bp = 1;
}

module _ {S : Type 0} where
  abbrev pub nvm_p2 : Bus S → Nvm S
  nvm_p2 = nvm_word registers_p2

  abbrev pub nvm_p3 : Bus S → Nvm S
  nvm_p3 = nvm_paged registers_p3

  abbrev pub nvm_p4 : Bus S → Nvm S
  nvm_p4 = nvm_word registers_p4

  abbrev pub nvm_p5 : Bus S → Nvm S
  nvm_p5 = nvm_paged registers_p5
