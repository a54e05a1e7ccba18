-- ===== src/Devices/Mega.antt =====
-- The device packs of megaAVR 0 in reference/pymcuprog/deviceinfo/devices/, entry by entry.
use updi_programmer.Prelude.{true, false}
use updi_programmer.Devices.Pack.{
  DevicePack, memory, always_erased, conditionally_erased_avr, not_erased, bits_16,
}

abbrev pub atmega1608 : DevicePack
atmega1608 = record {
  name = "atmega1608";
  eeprom = memory 0x1400 0x100 0x20 0x1 0x1 conditionally_erased_avr true;
  flash = memory 0x4000 0x4000 0x40 0x2 0x40 always_erased true;
  fuses = memory 0x1280 0x9 0x1 0x1 0x1 not_erased false;
  internal_sram = memory 0x3800 0x800 0x1 0x1 0x1 not_erased false;
  lockbits = memory 0x128a 0x1 0x1 0x1 0x1 always_erased false;
  signatures = memory 0x1100 0x40 0x1 0x1 0x0 not_erased false;
  user_row = memory 0x1300 0x20 0x1 0x1 0x1 not_erased true;
  nvmctrl_base = 0x1000;
  syscfg_base = 0xf00;
  ocd_base = 0xf80;
  prog_clock_khz = 1800;
  hv_implementation = 1;
  address_size = bits_16;
  device_id = 0x1e9427;
}

abbrev pub atmega1609 : DevicePack
atmega1609 = record {
  name = "atmega1609";
  eeprom = memory 0x1400 0x100 0x20 0x1 0x1 conditionally_erased_avr true;
  flash = memory 0x4000 0x4000 0x40 0x2 0x40 always_erased true;
  fuses = memory 0x1280 0x9 0x1 0x1 0x1 not_erased false;
  internal_sram = memory 0x3800 0x800 0x1 0x1 0x1 not_erased false;
  lockbits = memory 0x128a 0x1 0x1 0x1 0x1 always_erased false;
  signatures = memory 0x1100 0x40 0x1 0x1 0x0 not_erased false;
  user_row = memory 0x1300 0x20 0x1 0x1 0x1 not_erased true;
  nvmctrl_base = 0x1000;
  syscfg_base = 0xf00;
  ocd_base = 0xf80;
  prog_clock_khz = 1800;
  hv_implementation = 1;
  address_size = bits_16;
  device_id = 0x1e9426;
}

abbrev pub atmega3208 : DevicePack
atmega3208 = record {
  name = "atmega3208";
  eeprom = memory 0x1400 0x100 0x40 0x1 0x1 conditionally_erased_avr true;
  flash = memory 0x4000 0x8000 0x80 0x2 0x80 always_erased true;
  fuses = memory 0x1280 0x9 0x1 0x1 0x1 not_erased false;
  internal_sram = memory 0x3000 0x1000 0x1 0x1 0x1 not_erased false;
  lockbits = memory 0x128a 0x1 0x1 0x1 0x1 always_erased false;
  signatures = memory 0x1100 0x40 0x1 0x1 0x0 not_erased false;
  user_row = memory 0x1300 0x40 0x1 0x1 0x1 not_erased true;
  nvmctrl_base = 0x1000;
  syscfg_base = 0xf00;
  ocd_base = 0xf80;
  prog_clock_khz = 1800;
  hv_implementation = 1;
  address_size = bits_16;
  device_id = 0x1e9530;
}

abbrev pub atmega3209 : DevicePack
atmega3209 = record {
  name = "atmega3209";
  eeprom = memory 0x1400 0x100 0x40 0x1 0x1 conditionally_erased_avr true;
  flash = memory 0x4000 0x8000 0x80 0x2 0x80 always_erased true;
  fuses = memory 0x1280 0x9 0x1 0x1 0x1 not_erased false;
  internal_sram = memory 0x3000 0x1000 0x1 0x1 0x1 not_erased false;
  lockbits = memory 0x128a 0x1 0x1 0x1 0x1 always_erased false;
  signatures = memory 0x1100 0x40 0x1 0x1 0x0 not_erased false;
  user_row = memory 0x1300 0x40 0x1 0x1 0x1 not_erased true;
  nvmctrl_base = 0x1000;
  syscfg_base = 0xf00;
  ocd_base = 0xf80;
  prog_clock_khz = 1800;
  hv_implementation = 1;
  address_size = bits_16;
  device_id = 0x1e9531;
}

abbrev pub atmega4808 : DevicePack
atmega4808 = record {
  name = "atmega4808";
  eeprom = memory 0x1400 0x100 0x40 0x1 0x1 conditionally_erased_avr true;
  flash = memory 0x4000 0xc000 0x80 0x2 0x80 always_erased true;
  fuses = memory 0x1280 0x9 0x1 0x1 0x1 not_erased false;
  internal_sram = memory 0x2800 0x1800 0x1 0x1 0x1 not_erased false;
  lockbits = memory 0x128a 0x1 0x1 0x1 0x1 always_erased false;
  signatures = memory 0x1100 0x40 0x1 0x1 0x0 not_erased false;
  user_row = memory 0x1300 0x40 0x1 0x1 0x1 not_erased true;
  nvmctrl_base = 0x1000;
  syscfg_base = 0xf00;
  ocd_base = 0xf80;
  prog_clock_khz = 1800;
  hv_implementation = 1;
  address_size = bits_16;
  device_id = 0x1e9650;
}

abbrev pub atmega4809 : DevicePack
atmega4809 = record {
  name = "atmega4809";
  eeprom = memory 0x1400 0x100 0x40 0x1 0x1 conditionally_erased_avr true;
  flash = memory 0x4000 0xc000 0x80 0x2 0x80 always_erased true;
  fuses = memory 0x1280 0x9 0x1 0x1 0x1 not_erased false;
  internal_sram = memory 0x2800 0x1800 0x1 0x1 0x1 not_erased false;
  lockbits = memory 0x128a 0x1 0x1 0x1 0x1 always_erased false;
  signatures = memory 0x1100 0x40 0x1 0x1 0x0 not_erased false;
  user_row = memory 0x1300 0x40 0x1 0x1 0x1 not_erased true;
  nvmctrl_base = 0x1000;
  syscfg_base = 0xf00;
  ocd_base = 0xf80;
  prog_clock_khz = 1800;
  hv_implementation = 1;
  address_size = bits_16;
  device_id = 0x1e9651;
}

abbrev pub atmega808 : DevicePack
atmega808 = record {
  name = "atmega808";
  eeprom = memory 0x1400 0x100 0x20 0x1 0x1 conditionally_erased_avr true;
  flash = memory 0x4000 0x2000 0x40 0x2 0x40 always_erased true;
  fuses = memory 0x1280 0x9 0x1 0x1 0x1 not_erased false;
  internal_sram = memory 0x3c00 0x400 0x1 0x1 0x1 not_erased false;
  lockbits = memory 0x128a 0x1 0x1 0x1 0x1 always_erased false;
  signatures = memory 0x1100 0x40 0x1 0x1 0x0 not_erased false;
  user_row = memory 0x1300 0x20 0x1 0x1 0x1 not_erased true;
  nvmctrl_base = 0x1000;
  syscfg_base = 0xf00;
  ocd_base = 0xf80;
  prog_clock_khz = 1800;
  hv_implementation = 1;
  address_size = bits_16;
  device_id = 0x1e9326;
}

abbrev pub atmega809 : DevicePack
atmega809 = record {
  name = "atmega809";
  eeprom = memory 0x1400 0x100 0x20 0x1 0x1 conditionally_erased_avr true;
  flash = memory 0x4000 0x2000 0x40 0x2 0x40 always_erased true;
  fuses = memory 0x1280 0x9 0x1 0x1 0x1 not_erased false;
  internal_sram = memory 0x3c00 0x400 0x1 0x1 0x1 not_erased false;
  lockbits = memory 0x128a 0x1 0x1 0x1 0x1 always_erased false;
  signatures = memory 0x1100 0x40 0x1 0x1 0x0 not_erased false;
  user_row = memory 0x1300 0x20 0x1 0x1 0x1 not_erased true;
  nvmctrl_base = 0x1000;
  syscfg_base = 0xf00;
  ocd_base = 0xf80;
  prog_clock_khz = 1800;
  hv_implementation = 1;
  address_size = bits_16;
  device_id = 0x1e932a;
}
