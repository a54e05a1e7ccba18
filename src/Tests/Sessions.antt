-- ===== src/Tests/Sessions.antt =====
-- Sessions with a target on the line.
use updi_programmer.Prelude.{◌+◌, ◌%◌, ◌^◌, ◌≡◌, refl, true, false, arith}
use updi_programmer.Exec.{ok}
use updi_programmer.ReadWrite.{read_data, write_data}
use updi_programmer.Serial.{Clock}
use updi_programmer.App.{App, Driver, Device}
use updi_programmer.Provider.{read}
use updi_programmer.Provider.Memory.{MemoryName, MemoryInfo}
use updi_programmer.Provider.Read.{range}
use updi_programmer.Provider.Session.{avr_of}
use updi_programmer.Target.Memory.{mem_read, read_range}
use updi_programmer.Target.Line.{Line, quiet}
use updi_programmer.Target.Link.{Speaks, datalink16-Speaks, datalink24-Speaks}
use updi_programmer.Target.Transfer.{IsBytes, read_data_lem}
use updi_programmer.Target.Transfer.Overlay.{overlaid, write_data-overlaid}
use updi_programmer.Target.Transfer.RoundTrip.{InFlash, read_data-write_data}
use updi_programmer.Target.Session.{Holds, config, read-Holds}
use updi_programmer.Target.Programming.{Still, access, is_programming, enter_progmode-enters}
use updi_programmer.Target.Device.{Core}
use updi_programmer.App.Mode
use updi_programmer.Tests.Data.{
  preset_p0, preset_p3, erased, fresh, exceptions, wide, narrow, greeting,
}

datalink24-Speaks_example : Speaks preset_p3 (2 ^ 24) wide
datalink24-Speaks_example = datalink24-Speaks exceptions preset_p3 230400

datalink16-Speaks_example : Speaks preset_p0 (2 ^ 16) narrow
datalink16-Speaks_example = datalink16-Speaks exceptions preset_p0 230400

-- the session of `read`: the erased target's flash, 600 bytes of it
abbrev session : App Line
session = record { world = quiet fresh; is_narrow = false; driver = Driver.p3 }

abbrev dut : Device
dut = record { sigrow_address = 0x1100; syscfg_address = 0x0F00; nvmctrl_address = 0x1000 }

abbrev line_clock : Clock Line
line_clock = record { now = λ s. (0, s) }

abbrev flash : MemoryInfo
flash = record {
  name = MemoryName.flash;
  address = 0x800000;
  size = 0x10000;
  page_size = 128;
  write_size = 2;
}

greeting-IsBytes : IsBytes greeting
greeting-IsBytes = (omega arith, (omega arith, (omega arith, (omega arith, (omega arith, tt)))))

read_data_lem_example : read_data wide 0x800010 200 (quiet fresh) ≡ (
  ok (read_range preset_p3 erased 0x800010 200),
  quiet (record fresh { repeat_next = 0; ptr = (0x800010 + 200) % 2 ^ 32 }),
)
read_data_lem_example =
    read_data_lem preset_p3 (2 ^ 24) wide (datalink24-Speaks exceptions preset_p3 230400) 0x800010
      200 fresh refl (omega arith) (omega arith) (omega arith)

greeting-InFlash : InFlash preset_p3 0x800010 5
greeting-InFlash = record {
  above = omega arith;
  below = omega arith;
  small = omega arith;
  controller = omega arith;
}

write_data-overlaid_example :
    (e' : Core) × (write_data wide 0x800010 greeting (quiet fresh) ≡ (ok tt, quiet e'))
    × (mem_read preset_p3 e'.memory ≡ overlaid 0x800010 greeting (mem_read preset_p3 erased))
write_data-overlaid_example =
    write_data-overlaid preset_p3 (2 ^ 24) wide (datalink24-Speaks exceptions preset_p3 230400)
      0x800010 greeting fresh refl greeting-IsBytes (omega arith) greeting-InFlash

read-Holds_example :
    (app : App Line) × (read
        (avr_of (config preset_p3 230400 line_clock exceptions 200 dut erased) dut)
        flash
        16
        600
        session
      ≡ (ok (range (mem_read preset_p3 erased) (16 + 0x800000) 600), app))
    × Holds erased false app
read-Holds_example =
    read-Holds preset_p3 230400 line_clock exceptions 200 dut erased false flash 16 600 session
      (fresh, Driver.p3, refl, refl, refl) (omega arith)

read_data-write_data_example :
    (read_data wide 0x800010 5 (write_data wide 0x800010 greeting (quiet fresh)).1).0 ≡ ok greeting
read_data-write_data_example =
    read_data-write_data preset_p3 (2 ^ 24) wide (datalink24-Speaks exceptions preset_p3 230400)
      0x800010 greeting fresh refl greeting-IsBytes (omega arith) (omega arith) (omega arith)
      greeting-InFlash

line_clock-Still : Still line_clock 0
line_clock-Still = record { reads = λ l. refl }

enter_progmode-enters_example :
    (e : Core) × (Mode.enter_progmode
        (access preset_p3 230400 exceptions false)
        line_clock
        1
        (quiet fresh)
      ≡ (ok true, quiet e))
    × (is_programming e ≡ true)
    × (e.memory ≡ erased)
enter_progmode-enters_example =
    enter_progmode-enters preset_p3 230400 exceptions line_clock 0 line_clock-Still false 0 fresh
      (omega arith) (omega arith)
