-- ===== src/Devices/Tiny.antt =====
-- The device packs of tinyAVR 0, 1 and 2 in reference/pymcuprog/deviceinfo/devices/, entry by entry.
use updi_programmer.Prelude.{true, false}
use updi_programmer.Devices.Pack.{
  DevicePack, memory, always_erased, conditionally_erased_avr, not_erased, bits_16,
}

abbrev pub attiny1614 : DevicePack
attiny1614 = record {
  name = "attiny1614";
  eeprom = memory 0x1400 0x100 0x20 0x1 0x1 conditionally_erased_avr true;
  flash = memory 0x8000 0x4000 0x40 0x2 0x40 always_erased true;
  fuses = memory 0x1280 0x9 0x1 0x1 0x1 not_erased false;
  internal_sram = memory 0x3800 0x800 0x1 0x1 0x1 not_erased false;
  lockbits = memory 0x128a 0x1 0x1 0x1 0x1 always_erased false;
  signatures = memory 0x1100 0x40 0x1 0x1 0x0 not_erased false;
  user_row = memory 0x1300 0x20 0x1 0x1 0x1 not_erased true;
  nvmctrl_base = 0x1000;
  syscfg_base = 0xf00;
  ocd_base = 0xf80;
  prog_clock_khz = 900;
  hv_implementation = 0;
  address_size = bits_16;
  device_id = 0x1e9422;
}

abbrev pub attiny1616 : DevicePack
attiny1616 = record {
  name = "attiny1616";
  eeprom = memory 0x1400 0x100 0x20 0x1 0x1 conditionally_erased_avr true;
  flash = memory 0x8000 0x4000 0x40 0x2 0x40 always_erased true;
  fuses = memory 0x1280 0x9 0x1 0x1 0x1 not_erased false;
  internal_sram = memory 0x3800 0x800 0x1 0x1 0x1 not_erased false;
  lockbits = memory 0x128a 0x1 0x1 0x1 0x1 always_erased false;
  signatures = memory 0x1100 0x40 0x1 0x1 0x0 not_erased false;
  user_row = memory 0x1300 0x20 0x1 0x1 0x1 not_erased true;
  nvmctrl_base = 0x1000;
  syscfg_base = 0xf00;
  ocd_base = 0xf80;
  prog_clock_khz = 900;
  hv_implementation = 0;
  address_size = bits_16;
  device_id = 0x1e9421;
}

abbrev pub attiny1627 : DevicePack
attiny1627 = record {
  name = "attiny1627";
  eeprom = memory 0x1400 0x100 0x20 0x1 0x1 conditionally_erased_avr true;
  flash = memory 0x8000 0x4000 0x40 0x2 0x40 always_erased true;
  fuses = memory 0x1280 0x9 0x1 0x1 0x1 not_erased false;
  internal_sram = memory 0x3800 0x800 0x1 0x1 0x1 not_erased false;
  lockbits = memory 0x128a 0x1 0x1 0x1 0x1 always_erased false;
  signatures = memory 0x1100 0x40 0x1 0x1 0x0 not_erased false;
  user_row = memory 0x1300 0x20 0x1 0x1 0x1 not_erased true;
  nvmctrl_base = 0x1000;
  syscfg_base = 0xf00;
  ocd_base = 0xf80;
  prog_clock_khz = 900;
  hv_implementation = 0;
  address_size = bits_16;
  device_id = 0x1e9428;
}

abbrev pub attiny3216 : DevicePack
attiny3216 = record {
  name = "attiny3216";
  eeprom = memory 0x1400 0x100 0x40 0x1 0x1 conditionally_erased_avr true;
  flash = memory 0x8000 0x8000 0x80 0x2 0x80 always_erased true;
  fuses = memory 0x1280 0x9 0x1 0x1 0x1 not_erased false;
  internal_sram = memory 0x3800 0x800 0x1 0x1 0x1 not_erased false;
  lockbits = memory 0x128a 0x1 0x1 0x1 0x1 always_erased false;
  signatures = memory 0x1100 0x40 0x1 0x1 0x0 not_erased false;
  user_row = memory 0x1300 0x20 0x1 0x1 0x1 not_erased true;
  nvmctrl_base = 0x1000;
  syscfg_base = 0xf00;
  ocd_base = 0xf80;
  prog_clock_khz = 900;
  hv_implementation = 0;
  address_size = bits_16;
  device_id = 0x1e9521;
}

abbrev pub attiny3226 : DevicePack
attiny3226 = record {
  name = "attiny3226";
  eeprom = memory 0x1400 0x100 0x40 0x1 0x1 conditionally_erased_avr true;
  flash = memory 0x8000 0x8000 0x80 0x2 0x80 always_erased true;
  fuses = memory 0x1280 0x9 0x1 0x1 0x1 not_erased false;
  internal_sram = memory 0x3400 0xc00 0x1 0x1 0x1 not_erased false;
  lockbits = memory 0x128a 0x1 0x1 0x1 0x1 always_erased false;
  signatures = memory 0x1100 0x40 0x1 0x1 0x0 not_erased false;
  user_row = memory 0x1300 0x20 0x1 0x1 0x1 not_erased true;
  nvmctrl_base = 0x1000;
  syscfg_base = 0xf00;
  ocd_base = 0xf80;
  prog_clock_khz = 900;
  hv_implementation = 0;
  address_size = bits_16;
  device_id = 0x1e9527;
}

abbrev pub attiny412 : DevicePack
attiny412 = record {
  name = "attiny412";
  eeprom = memory 0x1400 0x80 0x20 0x1 0x1 conditionally_erased_avr true;
  flash = memory 0x8000 0x1000 0x40 0x2 0x40 always_erased true;
  fuses = memory 0x1280 0x9 0x1 0x1 0x1 not_erased false;
  internal_sram = memory 0x3f00 0x100 0x1 0x1 0x1 not_erased false;
  lockbits = memory 0x128a 0x1 0x1 0x1 0x1 always_erased false;
  signatures = memory 0x1100 0x40 0x1 0x1 0x0 not_erased false;
  user_row = memory 0x1300 0x20 0x1 0x1 0x1 not_erased true;
  nvmctrl_base = 0x1000;
  syscfg_base = 0xf00;
  ocd_base = 0xf80;
  prog_clock_khz = 900;
  hv_implementation = 0;
  address_size = bits_16;
  device_id = 0x1e9223;
}

abbrev pub attiny416 : DevicePack
attiny416 = record {
  name = "attiny416";
  eeprom = memory 0x1400 0x80 0x20 0x1 0x1 conditionally_erased_avr true;
  flash = memory 0x8000 0x1000 0x40 0x2 0x40 always_erased true;
  fuses = memory 0x1280 0x9 0x1 0x1 0x1 not_erased false;
  internal_sram = memory 0x3f00 0x100 0x1 0x1 0x1 not_erased false;
  lockbits = memory 0x128a 0x1 0x1 0x1 0x1 always_erased false;
  signatures = memory 0x1100 0x40 0x1 0x1 0x0 not_erased false;
  user_row = memory 0x1300 0x20 0x1 0x1 0x1 not_erased true;
  nvmctrl_base = 0x1000;
  syscfg_base = 0xf00;
  ocd_base = 0xf80;
  prog_clock_khz = 900;
  hv_implementation = 0;
  address_size = bits_16;
  device_id = 0x1e9221;
}

abbrev pub attiny814 : DevicePack
attiny814 = record {
  name = "attiny814";
  eeprom = memory 0x1400 0x80 0x20 0x1 0x1 conditionally_erased_avr true;
  flash = memory 0x8000 0x2000 0x40 0x2 0x40 always_erased true;
  fuses = memory 0x1280 0x9 0x1 0x1 0x1 not_erased false;
  internal_sram = memory 0x3e00 0x200 0x1 0x1 0x1 not_erased false;
  lockbits = memory 0x128a 0x1 0x1 0x1 0x1 always_erased false;
  signatures = memory 0x1100 0x40 0x1 0x1 0x0 not_erased false;
  user_row = memory 0x1300 0x20 0x1 0x1 0x1 not_erased true;
  nvmctrl_base = 0x1000;
  syscfg_base = 0xf00;
  ocd_base = 0xf80;
  prog_clock_khz = 900;
  hv_implementation = 0;
  address_size = bits_16;
  device_id = 0x1e9322;
}

abbrev pub attiny816 : DevicePack
attiny816 = record {
  name = "attiny816";
  eeprom = memory 0x1400 0x80 0x20 0x1 0x1 conditionally_erased_avr true;
  flash = memory 0x8000 0x2000 0x40 0x2 0x40 always_erased true;
  fuses = memory 0x1280 0x9 0x1 0x1 0x1 not_erased false;
  internal_sram = memory 0x3e00 0x200 0x1 0x1 0x1 not_erased false;
  lockbits = memory 0x128a 0x1 0x1 0x1 0x1 always_erased false;
  signatures = memory 0x1100 0x40 0x1 0x1 0x0 not_erased false;
  user_row = memory 0x1300 0x20 0x1 0x1 0x1 not_erased true;
  nvmctrl_base = 0x1000;
  syscfg_base = 0xf00;
  ocd_base = 0xf80;
  prog_clock_khz = 900;
  hv_implementation = 0;
  address_size = bits_16;
  device_id = 0x1e9321;
}

abbrev pub attiny827 : DevicePack
attiny827 = record {
  name = "attiny827";
  eeprom = memory 0x1400 0x80 0x20 0x1 0x1 conditionally_erased_avr true;
  flash = memory 0x8000 0x2000 0x40 0x2 0x40 always_erased true;
  fuses = memory 0x1280 0x9 0x1 0x1 0x1 not_erased false;
  internal_sram = memory 0x3c00 0x400 0x1 0x1 0x1 not_erased false;
  lockbits = memory 0x128a 0x1 0x1 0x1 0x1 always_erased false;
  signatures = memory 0x1100 0x40 0x1 0x1 0x0 not_erased false;
  user_row = memory 0x1300 0x20 0x1 0x1 0x1 not_erased true;
  nvmctrl_base = 0x1000;
  syscfg_base = 0xf00;
  ocd_base = 0xf80;
  prog_clock_khz = 900;
  hv_implementation = 0;
  address_size = bits_16;
  device_id = 0x1e9327;
}
