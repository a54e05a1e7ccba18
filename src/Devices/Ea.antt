-- ===== src/Devices/Ea.antt =====
-- The device packs of AVR EA in reference/pymcuprog/deviceinfo/devices/, entry by entry.
use updi_programmer.Prelude.{true, false}
use updi_programmer.Devices.Pack.{
  DevicePack, memory, always_erased, conditionally_erased_avr, not_erased, bits_24,
}

abbrev pub avr64ea28 : DevicePack
avr64ea28 = record {
  name = "avr64ea28";
  eeprom = memory 0x1400 0x200 0x8 0x1 0x1 conditionally_erased_avr true;
  flash = memory 0x800000 0x10000 0x80 0x2 0x80 always_erased true;
  fuses = memory 0x1050 0x9 0x1 0x1 0x1 not_erased false;
  internal_sram = memory 0x6800 0x1800 0x1 0x1 0x1 not_erased false;
  lockbits = memory 0x1040 0x4 0x1 0x1 0x1 always_erased false;
  signatures = memory 0x1100 0x40 0x1 0x1 0x0 not_erased false;
  user_row = memory 0x1080 0x40 0x40 0x1 0x40 not_erased true;
  nvmctrl_base = 0x1000;
  syscfg_base = 0xf00;
  ocd_base = 0xf80;
  prog_clock_khz = 1800;
  hv_implementation = 2;
  address_size = bits_24;
  device_id = 0x1e9620;
}

abbrev pub avr64ea32 : DevicePack
avr64ea32 = record {
  name = "avr64ea32";
  eeprom = memory 0x1400 0x200 0x8 0x1 0x1 conditionally_erased_avr true;
  flash = memory 0x800000 0x10000 0x80 0x2 0x80 always_erased true;
  fuses = memory 0x1050 0x9 0x1 0x1 0x1 not_erased false;
  internal_sram = memory 0x6800 0x1800 0x1 0x1 0x1 not_erased false;
  lockbits = memory 0x1040 0x4 0x1 0x1 0x1 always_erased false;
  signatures = memory 0x1100 0x40 0x1 0x1 0x0 not_erased false;
  user_row = memory 0x1080 0x40 0x40 0x1 0x40 not_erased true;
  nvmctrl_base = 0x1000;
  syscfg_base = 0xf00;
  ocd_base = 0xf80;
  prog_clock_khz = 1800;
  hv_implementation = 2;
  address_size = bits_24;
  device_id = 0x1e961f;
}

abbrev pub avr64ea48 : DevicePack
avr64ea48 = record {
  name = "avr64ea48";
  eeprom = memory 0x1400 0x200 0x8 0x1 0x1 conditionally_erased_avr true;
  flash = memory 0x800000 0x10000 0x80 0x2 0x80 always_erased true;
  fuses = memory 0x1050 0x9 0x1 0x1 0x1 not_erased false;
  internal_sram = memory 0x6800 0x1800 0x1 0x1 0x1 not_erased false;
  lockbits = memory 0x1040 0x4 0x1 0x1 0x1 always_erased false;
  signatures = memory 0x1100 0x40 0x1 0x1 0x0 not_erased false;
  user_row = memory 0x1080 0x40 0x40 0x1 0x40 not_erased true;
  nvmctrl_base = 0x1000;
  syscfg_base = 0xf00;
  ocd_base = 0xf80;
  prog_clock_khz = 1800;
  hv_implementation = 2;
  address_size = bits_24;
  device_id = 0x1e961e;
}
