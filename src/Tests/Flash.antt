-- ===== src/Tests/Flash.antt =====
-- Writes by words, and a flash write by the driver, with a target on the line.
use updi_programmer.Prelude.{ℕ, ◌^◌, ◌≡◌, refl, List, [], ◌∷◌, arith}
use updi_programmer.Exec.{ok, err, protocol_error}
use updi_programmer.Serial.{Clock}
use updi_programmer.ReadWrite.{read_data, read_data_words, write_data_words}
use updi_programmer.Nvm.{nvm_p0, nvm_p3}
use updi_programmer.Target.Memory.{mem_read, read_range}
use updi_programmer.Target.Device.{Core, store_all}
use updi_programmer.Target.Line.{Line, quiet}
use updi_programmer.Target.Link.{datalink16-Speaks, datalink24-Speaks}
use updi_programmer.Target.Transfer.{IsBytes}
use updi_programmer.Target.Transfer.RoundTrip.{InFlash}
use updi_programmer.Target.Transfer.Overlay.{overlaid, write_data_words-overlaid}
use updi_programmer.Target.Transfer.Limits.{transfer_limits}
use updi_programmer.Target.Programming.{Still}
use updi_programmer.Target.Flash.{HasP3, line_bus, write_flash-holds}
use updi_programmer.Target.FlashP0.{HasP0, write_flash-p0_holds, write_fuse-holds}
use updi_programmer.Tests.Data.{narrow, preset_p0, preset_p3, erased, fresh, exceptions, wide}

abbrev two_words : List ℕ
two_words = 0x0C ∷ 0x94 ∷ 0x34 ∷ 0x00 ∷ []

two_words-IsBytes : IsBytes two_words
two_words-IsBytes = (omega arith, (omega arith, (omega arith, (omega arith, tt))))

preset_p3-HasP3 : HasP3 preset_p3 (2 ^ 24)
preset_p3-HasP3 = record {
  status = refl;
  ctrla = refl;
  no_fuse = refl;
  erase = refl;
  below = omega arith;
  reach = omega arith;
}

abbrev still_clock : Clock Line
still_clock = record { now = λ l. (0, l) }

still_clock-Still : Still still_clock 0
still_clock-Still = record { reads = λ l. refl }

two_words-InFlash : InFlash preset_p3 0x800000 4
two_words-InFlash = record {
  above = omega arith;
  below = omega arith;
  small = omega arith;
  controller = omega arith;
}

write_data_words-overlaid_example :
    (e' : Core) × (write_data_words wide 0x800000 two_words (quiet fresh) ≡ (ok tt, quiet e'))
    × (mem_read preset_p3 e'.memory ≡ overlaid 0x800000 two_words (mem_read preset_p3 erased))
write_data_words-overlaid_example =
    write_data_words-overlaid preset_p3 (2 ^ 24) wide
      (datalink24-Speaks exceptions preset_p3 230400) 0x800000 2 two_words fresh refl
      two_words-IsBytes refl (omega arith) (omega arith) (omega arith) two_words-InFlash

-- a read that is too long, one that is not, and a write
transfer_limits_example :
    ((e1 : Core) × (read_data wide 0x800000 300 (quiet fresh) ≡ (err protocol_error, quiet e1))
      × (e1.memory ≡ erased))
    × ((e2 : Core) × (read_data_words wide 0x800000 100 (quiet fresh)
          ≡ (ok (read_range preset_p3 erased 0x800000 200), quiet e2))
        × (e2.memory ≡ erased))
    × ((e3 : Core) × (write_data_words wide 0x800000 two_words (quiet fresh) ≡ (ok tt, quiet e3))
        × (e3.memory ≡ store_all preset_p3 0x800000 two_words erased))
transfer_limits_example =
    transfer_limits preset_p3 (2 ^ 24) wide (datalink24-Speaks exceptions preset_p3 230400) 0x800000
      300 100 2 two_words fresh refl two_words-IsBytes refl (omega arith) (omega arith)
      (omega arith) (omega arith)

write_flash-holds_example :
    (e : Core) × ((nvm_p3 (line_bus preset_p3 wide still_clock 1)).write_flash 0x800000 two_words
        (quiet fresh)
      ≡ (ok tt, quiet e))
    × (read_range preset_p3 e.memory 0x800000 4 ≡ two_words)
    × (e.repeat_next ≡ 0)
write_flash-holds_example =
    write_flash-holds preset_p3 (2 ^ 24) preset_p3-HasP3 wide
      (datalink24-Speaks exceptions preset_p3 230400) still_clock 0 still_clock-Still 0 0x800000 2
      two_words fresh refl two_words-IsBytes refl (omega arith) (omega arith) (omega arith)
      two_words-InFlash

pub preset_p0-HasP0 : HasP0 preset_p0 (2 ^ 16)
preset_p0-HasP0 = record {
  base = refl;
  status = refl;
  ctrla = refl;
  fuse_data = refl;
  fuse_addr = refl;
  fuse = refl;
  erase = refl;
  above = omega arith;
  reach = omega arith;
}

write_flash-p0_holds_example :
    (e : Core) × ((nvm_p0 (line_bus preset_p0 narrow still_clock 1)).write_flash 0x8100 two_words
        (quiet fresh)
      ≡ (ok tt, quiet e))
    × (read_range preset_p0 e.memory 0x8100 4 ≡ two_words)
    × (e.repeat_next ≡ 0)
write_flash-p0_holds_example =
    write_flash-p0_holds preset_p0 (2 ^ 16) preset_p0-HasP0 narrow
      (datalink16-Speaks exceptions preset_p0 230400) still_clock 0 still_clock-Still 0 0x8100 2
      two_words fresh refl two_words-IsBytes refl (omega arith) (omega arith) (omega arith)
      (record {
        above = omega arith;
        below = omega arith;
        small = omega arith;
        controller = omega arith;
      })

write_fuse-holds_example :
    (e : Core) × ((nvm_p0 (line_bus preset_p0 narrow still_clock 1)).write_fuse 0x1285
        (0xC4 ∷ [])
        (quiet fresh)
      ≡ (ok tt, quiet e))
    × (mem_read preset_p0 e.memory 0x1285 ≡ 0xC4)
write_fuse-holds_example =
    write_fuse-holds preset_p0 (2 ^ 16) preset_p0-HasP0 narrow
      (datalink16-Speaks exceptions preset_p0 230400) still_clock 0 still_clock-Still 0 0x1285 0xC4
      fresh (omega arith) (omega arith) (omega arith)
