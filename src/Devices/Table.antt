-- ===== src/Devices/Table.antt =====
-- `row` and `PARTS` of scripts/gen_device_table.py, as values: the geometry table of the C
-- programmer before it is printed.
use Prim.Native.String.{String}
use updi_programmer.Prelude.{
  ℕ, ◌+◌, ◌*◌, ◌%◌, ◌^◌, ◌<◌, ◌≤◌, ◌≡◌, refl, zero, suc, some, Bool, true, false, ◌&&◌, List, [],
  ◌∷◌, arith, leb, ltb, ◌==◌, if◌then◌else◌,
}
use updi_programmer.Prelude.Lists.{get_elem?}
use updi_programmer.Devices.Pack.{DevicePack, AddressSize, bits_16, bits_24}
use updi_programmer.Devices.Ea.{avr64ea28, avr64ea32, avr64ea48}
use updi_programmer.Devices.Tiny.{
  attiny412, attiny416, attiny814, attiny816, attiny1614, attiny1616, attiny3216, attiny3226,
  attiny827, attiny1627,
}
use updi_programmer.Devices.Mega.{
  atmega808, atmega809, atmega1608, atmega1609, atmega3208, atmega3209, atmega4808, atmega4809,
}

pub data Variant : Type 0 where
  updi_nvm_variant_p0 updi_nvm_variant_p3 : Variant

-- the fields of a row, in order
pub record Row : Type 0 where
  pub device_id : ℕ
  pub name : String
  pub flash_address : ℕ
  pub flash_size : ℕ
  pub flash_page_size : ℕ
  pub eeprom_address : ℕ
  pub eeprom_size : ℕ
  pub eeprom_page_size : ℕ
  pub fuses_address : ℕ
  pub fuses_size : ℕ
  pub userrow_address : ℕ
  pub userrow_size : ℕ
  pub userrow_page_size : ℕ
  pub sigrow_address : ℕ
  pub nvmctrl_base : ℕ
  pub syscfg_base : ℕ
  pub address_bytes : ℕ
  pub nvm_variant : Variant

abbrev is24 : AddressSize → Bool
is24 bits_24 = true
is24 bits_16 = false

unfoldable pub row : DevicePack → Row
row info = record {
  device_id = info.device_id;
  name = info.name;
  flash_address = info.flash.address;
  flash_size = info.flash.size;
  flash_page_size = info.flash.page_size;
  eeprom_address = info.eeprom.address;
  eeprom_size = info.eeprom.size;
  eeprom_page_size = info.eeprom.page_size;
  fuses_address = info.fuses.address;
  fuses_size = info.fuses.size;
  userrow_address = info.user_row.address;
  userrow_size = info.user_row.size;
  userrow_page_size = info.user_row.page_size;
  sigrow_address = info.signatures.address;
  nvmctrl_base = info.nvmctrl_base;
  syscfg_base = info.syscfg_base;
  address_bytes = if is24 info.address_size then 3 else 2;
  nvm_variant = if is24 info.address_size then updi_nvm_variant_p3 else updi_nvm_variant_p0;
}

abbrev pub parts : List DevicePack
parts =
    avr64ea28 ∷ avr64ea32 ∷ avr64ea48 ∷ attiny412 ∷ attiny416 ∷ attiny814 ∷ attiny816 ∷ attiny1614
    ∷ attiny1616 ∷ attiny3216 ∷ attiny3226 ∷ attiny827 ∷ attiny1627 ∷ atmega808 ∷ atmega809
    ∷ atmega1608 ∷ atmega1609 ∷ atmega3208 ∷ atmega3209 ∷ atmega4808 ∷ atmega4809 ∷ []

-- What a flash write rests on.
pub record Fits (r : Row) : Type 0 where
  pub has_page : 0 < r.flash_page_size
  pub whole_pages : r.flash_size % r.flash_page_size ≡ 0
  pub aligned : r.flash_address % r.flash_page_size ≡ 0
  pub in_space : r.flash_address + r.flash_size ≤ 2 ^ (8 * r.address_bytes)
  pub one_transfer : r.flash_page_size ≤ 512
  pub even_page : r.flash_page_size % 2 ≡ 0
  pub above_registers : r.nvmctrl_base + 0x10 < r.flash_address
  pub user_row_in_space : r.userrow_address + r.userrow_size ≤ 2 ^ (8 * r.address_bytes)
  pub eeprom_in_space : r.eeprom_address + r.eeprom_size ≤ 2 ^ (8 * r.address_bytes)

-- the same as a test
abbrev fits : Row → Bool
fits r =
    ltb 0 r.flash_page_size
    && r.flash_size % r.flash_page_size == 0
    && r.flash_address % r.flash_page_size == 0
    && leb (r.flash_address + r.flash_size) (2 ^ (8 * r.address_bytes))
    && leb r.flash_page_size 512
    && r.flash_page_size % 2 == 0
    && ltb (r.nvmctrl_base + 0x10) r.flash_address
    && leb (r.userrow_address + r.userrow_size) (2 ^ (8 * r.address_bytes))
    && leb (r.eeprom_address + r.eeprom_size) (2 ^ (8 * r.address_bytes))

fits-Fits : (r : Row) → fits r ≡ true → Fits r
fits-Fits r h = ground arith

all_fit : List DevicePack → Bool
all_fit [] = true
all_fit (info ∷ rest) = fits (row info) && all_fit rest

parts_fit : all_fit parts ≡ true
unfolding all_fit row
parts_fit = refl

all_fit_sound :
    (l : List DevicePack) (i : ℕ) {info : DevicePack}
    → all_fit l ≡ true
    → get_elem? l i ≡ some info
    → Fits (row info)
unfolding all_fit
all_fit_sound [] i h e = cc
all_fit_sound (x ∷ l) zero {info} h e =
    let here : fits (row x) ≡ true = ground arith in
    let same : x ≡ info = cc in rw same at (fits-Fits (row x) here)
all_fit_sound (x ∷ l) (suc i) h e = all_fit_sound l i (ground arith) e

-- Of every part of the table, the flash is made of whole pages that start at multiples of the page
-- size and lies within the addresses of the row's width and above the NVM registers, a page is an
-- even number of bytes that one transfer by words can carry, and the user row and the EEPROM lie
-- within the addresses too.
pub row-Fits : (i : ℕ) {info : DevicePack} → get_elem? parts i ≡ some info → Fits (row info)
row-Fits i e = all_fit_sound parts i parts_fit e
