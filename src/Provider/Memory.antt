-- ===== src/Provider/Memory.antt =====
-- The memories of a device: the names of reference/pymcuprog/deviceinfo/memorynames.py, and the
-- entries of a memory description that the programmer reads (deviceinfokeys.py).
use updi_programmer.Prelude.{ℕ, Bool, ◌==◌}

pub data MemoryName : Type 0 where
  flash config_word user_id user_row boot_row eeprom fuses : MemoryName
  calibration_row icd lockbits signatures internal_sram dia dci : MemoryName

-- `memory_info`, with the keys NAME, ADDRESS, SIZE, PAGE_SIZE and WRITE_SIZE
pub record MemoryInfo : Type 0 where
  pub name : MemoryName
  pub address : ℕ
  pub size : ℕ
  pub page_size : ℕ
  pub write_size : ℕ

abbrev index : MemoryName → ℕ
index MemoryName.flash = 0
index MemoryName.config_word = 1
index MemoryName.user_id = 2
index MemoryName.user_row = 3
index MemoryName.boot_row = 4
index MemoryName.eeprom = 5
index MemoryName.fuses = 6
index MemoryName.calibration_row = 7
index MemoryName.icd = 8
index MemoryName.lockbits = 9
index MemoryName.signatures = 10
index MemoryName.internal_sram = 11
index MemoryName.dia = 12
index MemoryName.dci = 13

-- equality of two names
unfoldable pub same_name : MemoryName → MemoryName → Bool
same_name a b = index a == index b
