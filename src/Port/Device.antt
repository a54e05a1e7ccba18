-- ===== src/Port/Device.antt =====
-- The device table of updi/updi_device_table.h, as it is checked in, and its lookup, updi_device.c.
pub mod Lookup
use Prim.Native.String.{String}
use updi_programmer.Prelude.{
  ℕ, ◌+◌, ◌*◌, ◌≡◌, refl, Option, none, some, List, [], ◌∷◌, ◌==◌, if◌then◌else◌,
}
use updi_programmer.Devices.Pack.{DevicePack}
use updi_programmer.Devices.Table.{
  Row, Variant, updi_nvm_variant_p0, updi_nvm_variant_p3, row, parts,
}

-- a row, its fields in the order of the struct
abbrev pub device :
    ℕ → String → ℕ → ℕ → ℕ → ℕ → ℕ → ℕ → ℕ → ℕ → ℕ → ℕ → ℕ → ℕ → ℕ → ℕ → ℕ → Variant → Row
device device_id name flash_address flash_size flash_page_size eeprom_address eeprom_size
      eeprom_page_size fuses_address fuses_size userrow_address userrow_size userrow_page_size
      sigrow_address nvmctrl_base syscfg_base address_bytes nvm_variant =
    record {
      device_id = device_id;
      name = name;
      flash_address = flash_address;
      flash_size = flash_size;
      flash_page_size = flash_page_size;
      eeprom_address = eeprom_address;
      eeprom_size = eeprom_size;
      eeprom_page_size = eeprom_page_size;
      fuses_address = fuses_address;
      fuses_size = fuses_size;
      userrow_address = userrow_address;
      userrow_size = userrow_size;
      userrow_page_size = userrow_page_size;
      sigrow_address = sigrow_address;
      nvmctrl_base = nvmctrl_base;
      syscfg_base = syscfg_base;
      address_bytes = address_bytes;
      nvm_variant = nvm_variant;
    }

unfoldable pub updi_device_table : List Row
updi_device_table =
    device 0x1E9620 "avr64ea28" 0x00800000 0x10000 0x80 0x00001400 0x200 0x8 0x00001050 0x9
      0x00001080 0x40 0x40 0x00001100 0x00001000 0x00000F00 3 updi_nvm_variant_p3
    ∷ device 0x1E961F "avr64ea32" 0x00800000 0x10000 0x80 0x00001400 0x200 0x8 0x00001050 0x9
        0x00001080 0x40 0x40 0x00001100 0x00001000 0x00000F00 3 updi_nvm_variant_p3
    ∷ device 0x1E961E "avr64ea48" 0x00800000 0x10000 0x80 0x00001400 0x200 0x8 0x00001050 0x9
        0x00001080 0x40 0x40 0x00001100 0x00001000 0x00000F00 3 updi_nvm_variant_p3
    ∷ device 0x1E9223 "attiny412" 0x00008000 0x1000 0x40 0x00001400 0x80 0x20 0x00001280 0x9
        0x00001300 0x20 0x1 0x00001100 0x00001000 0x00000F00 2 updi_nvm_variant_p0
    ∷ device 0x1E9221 "attiny416" 0x00008000 0x1000 0x40 0x00001400 0x80 0x20 0x00001280 0x9
        0x00001300 0x20 0x1 0x00001100 0x00001000 0x00000F00 2 updi_nvm_variant_p0
    ∷ device 0x1E9322 "attiny814" 0x00008000 0x2000 0x40 0x00001400 0x80 0x20 0x00001280 0x9
        0x00001300 0x20 0x1 0x00001100 0x00001000 0x00000F00 2 updi_nvm_variant_p0
    ∷ device 0x1E9321 "attiny816" 0x00008000 0x2000 0x40 0x00001400 0x80 0x20 0x00001280 0x9
        0x00001300 0x20 0x1 0x00001100 0x00001000 0x00000F00 2 updi_nvm_variant_p0
    ∷ device 0x1E9422 "attiny1614" 0x00008000 0x4000 0x40 0x00001400 0x100 0x20 0x00001280 0x9
        0x00001300 0x20 0x1 0x00001100 0x00001000 0x00000F00 2 updi_nvm_variant_p0
    ∷ device 0x1E9421 "attiny1616" 0x00008000 0x4000 0x40 0x00001400 0x100 0x20 0x00001280 0x9
        0x00001300 0x20 0x1 0x00001100 0x00001000 0x00000F00 2 updi_nvm_variant_p0
    ∷ device 0x1E9521 "attiny3216" 0x00008000 0x8000 0x80 0x00001400 0x100 0x40 0x00001280 0x9
        0x00001300 0x20 0x1 0x00001100 0x00001000 0x00000F00 2 updi_nvm_variant_p0
    ∷ device 0x1E9527 "attiny3226" 0x00008000 0x8000 0x80 0x00001400 0x100 0x40 0x00001280 0x9
        0x00001300 0x20 0x1 0x00001100 0x00001000 0x00000F00 2 updi_nvm_variant_p0
    ∷ device 0x1E9327 "attiny827" 0x00008000 0x2000 0x40 0x00001400 0x80 0x20 0x00001280 0x9
        0x00001300 0x20 0x1 0x00001100 0x00001000 0x00000F00 2 updi_nvm_variant_p0
    ∷ device 0x1E9428 "attiny1627" 0x00008000 0x4000 0x40 0x00001400 0x100 0x20 0x00001280 0x9
        0x00001300 0x20 0x1 0x00001100 0x00001000 0x00000F00 2 updi_nvm_variant_p0
    ∷ device 0x1E9326 "atmega808" 0x00004000 0x2000 0x40 0x00001400 0x100 0x20 0x00001280 0x9
        0x00001300 0x20 0x1 0x00001100 0x00001000 0x00000F00 2 updi_nvm_variant_p0
    ∷ device 0x1E932A "atmega809" 0x00004000 0x2000 0x40 0x00001400 0x100 0x20 0x00001280 0x9
        0x00001300 0x20 0x1 0x00001100 0x00001000 0x00000F00 2 updi_nvm_variant_p0
    ∷ device 0x1E9427 "atmega1608" 0x00004000 0x4000 0x40 0x00001400 0x100 0x20 0x00001280 0x9
        0x00001300 0x20 0x1 0x00001100 0x00001000 0x00000F00 2 updi_nvm_variant_p0
    ∷ device 0x1E9426 "atmega1609" 0x00004000 0x4000 0x40 0x00001400 0x100 0x20 0x00001280 0x9
        0x00001300 0x20 0x1 0x00001100 0x00001000 0x00000F00 2 updi_nvm_variant_p0
    ∷ device 0x1E9530 "atmega3208" 0x00004000 0x8000 0x80 0x00001400 0x100 0x40 0x00001280 0x9
        0x00001300 0x40 0x1 0x00001100 0x00001000 0x00000F00 2 updi_nvm_variant_p0
    ∷ device 0x1E9531 "atmega3209" 0x00004000 0x8000 0x80 0x00001400 0x100 0x40 0x00001280 0x9
        0x00001300 0x40 0x1 0x00001100 0x00001000 0x00000F00 2 updi_nvm_variant_p0
    ∷ device 0x1E9650 "atmega4808" 0x00004000 0xC000 0x80 0x00001400 0x100 0x40 0x00001280 0x9
        0x00001300 0x40 0x1 0x00001100 0x00001000 0x00000F00 2 updi_nvm_variant_p0
    ∷ device 0x1E9651 "atmega4809" 0x00004000 0xC000 0x80 0x00001400 0x100 0x40 0x00001280 0x9
        0x00001300 0x40 0x1 0x00001100 0x00001000 0x00000F00 2 updi_nvm_variant_p0
    ∷ []

-- the first row with the id
unfoldable pub find_in : ℕ → List Row → Option Row
find_in device_id [] = none
find_in device_id (d ∷ rest) = if d.device_id == device_id then some d else find_in device_id rest

unfoldable pub find_by_id : ℕ → Option Row
unfolding find_in updi_device_table
find_by_id device_id = find_in device_id updi_device_table

-- the three signature bytes, highest first: the `|` of disjoint bytes is a sum
unfoldable pub id_from_sig : List ℕ → ℕ
id_from_sig (a ∷ b ∷ c ∷ _) = a * 65536 + b * 256 + c
id_from_sig _ = 0
