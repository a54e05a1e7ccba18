-- ===== src/Devices/Pack.antt =====
-- The shape of a device pack of reference/pymcuprog/deviceinfo/devices/, with the keys of
-- deviceinfokeys.py. Every pack is for the interface UPDI and the architecture avr8x.
use Prim.Native.String.{String}
use updi_programmer.Prelude.{ℕ, Bool}

-- `ChiperaseEffect`, as far as the packs name it
pub data ChiperaseEffect : Type 0 where
  always_erased conditionally_erased_avr not_erased : ChiperaseEffect

-- the value of `address_size`
pub data AddressSize : Type 0 where
  bits_16 bits_24 : AddressSize

-- the entries of one memory, which the packs spell `<memory>_address_byte` and so on
pub record PackMemory : Type 0 where
  pub address : ℕ
  pub size : ℕ
  pub page_size : ℕ
  pub read_size : ℕ
  pub write_size : ℕ
  pub chiperase_effect : ChiperaseEffect
  pub isolated_erase : Bool

-- the entries in this order
abbrev pub memory : ℕ → ℕ → ℕ → ℕ → ℕ → ChiperaseEffect → Bool → PackMemory
memory address size page_size read_size write_size effect isolated = record {
  address = address;
  size = size;
  page_size = page_size;
  read_size = read_size;
  write_size = write_size;
  chiperase_effect = effect;
  isolated_erase = isolated;
}

-- `DEVICE_INFO`
pub record DevicePack : Type 0 where
  pub name : String
  pub eeprom : PackMemory
  pub flash : PackMemory
  pub fuses : PackMemory
  pub internal_sram : PackMemory
  pub lockbits : PackMemory
  pub signatures : PackMemory
  pub user_row : PackMemory
  pub nvmctrl_base : ℕ
  pub syscfg_base : ℕ
  pub ocd_base : ℕ
  pub prog_clock_khz : ℕ
  pub hv_implementation : ℕ
  pub address_size : AddressSize
  pub device_id : ℕ
