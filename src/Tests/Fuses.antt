-- ===== src/Tests/Fuses.antt =====
-- The fuse write of the C port, applied to a tinyAVR on the emulator.
use updi_programmer.Prelude.{ℕ, ◌≡◌, refl, true, false, arith}
use updi_programmer.Devices.Table.{Row, updi_nvm_variant_p0}
use updi_programmer.Port.Call.{done}
use updi_programmer.Port.Device.{device}
use updi_programmer.Port.Nvm.{variant_desc}
use updi_programmer.Port.Nvm.Memory as NvmMemory
use updi_programmer.Target.Memory.{mem_read}
use updi_programmer.Target.Device.{Core}
use updi_programmer.Target.Emulator.{emu_transport, at_rest}
use updi_programmer.Target.Emulator.Fuse.{port_write_fuse-holds}
use updi_programmer.Target.Emulator.Nvm.{Describes}
use updi_programmer.Tests.Data.{preset_p0, fresh}
use updi_programmer.Tests.Flash.{preset_p0-HasP0}

-- a tinyAVR, of P:0
abbrev tiny412 : Row
tiny412 =
    device 0x1E9223 "attiny412" 0x00008000 0x1000 0x40 0x00001400 0x80 0x20 0x00001280 0x9
      0x00001300 0x20 0x1 0x00001100 0x00001000 0x00000F00 2 updi_nvm_variant_p0

tiny412-Describes : Describes preset_p0 tiny412
unfolding variant_desc
tiny412-Describes = record {
  base = refl;
  status = refl;
  ctrla = refl;
  erase = refl;
  below = omega arith;
  small = omega arith;
}

port_write_fuse-holds_example :
    (e' : Core) × (now' : ℕ) × (NvmMemory.write_fuse
        (emu_transport preset_p0)
        tiny412
        2
        0x7E
        (at_rest false 20 true fresh 0)
      ≡ (done tt, at_rest false 20 true e' now'))
    × (mem_read preset_p0 e'.memory 0x1282 ≡ 0x7E)
port_write_fuse-holds_example =
    port_write_fuse-holds preset_p0 tiny412 tiny412-Describes 20 false preset_p0-HasP0 refl true 2
      0x7E 0 fresh (omega arith) (omega arith) (omega arith)
