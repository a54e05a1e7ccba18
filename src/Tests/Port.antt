-- ===== src/Tests/Port.antt =====
-- The theorems on the C port, applied to an AVR EA on the emulator.
use updi_programmer.Prelude.{
  ℕ, ◌≡◌, refl, true, false, Option, none, some, List, [], ◌∷◌, arith, ltb, leb, ◌==◌,
  if◌then◌else◌,
}
use updi_programmer.Exec.{ok}
use updi_programmer.ReadWrite as Py
use updi_programmer.Devices.Table.{Row, row, updi_nvm_variant_p3}
use updi_programmer.Devices.Ea.{avr64ea28}
use updi_programmer.Port.Call.{done, ◌>>◌}
use updi_programmer.Port.Device.{device, find_by_id, id_from_sig}
use updi_programmer.Port.Device.Lookup.{find_by_id-row}
use updi_programmer.Port.Ends.{Ends}
use updi_programmer.Port.Ends.Session.{memory_calls-Ends}
use updi_programmer.Port.Link.Data as C
use updi_programmer.Port.Nvm.{variant_desc}
use updi_programmer.Port.Session.{
  Mismatch, UpdiSession, start, connect, chip_erase, write_flash, verify_flash, read_flash,
  read_fuses, write_fuse,
}
use updi_programmer.Port.Session.Mismatches.{Reports}
use updi_programmer.Port.Session.Consistent.{Consistent}
use updi_programmer.Port.Session.Reached.{
  started, requested, connects, writes, perform, Reached-Consistent,
}
use updi_programmer.Target.Memory.{Memory, mem_read, read_range}
use updi_programmer.Target.Device.{Core, idle, sib_bytes}
use updi_programmer.Target.Line.{quiet}
use updi_programmer.Target.Link.{datalink24-Speaks}
use updi_programmer.Target.Emulator.{Emu, emu, emu_transport, at_rest}
use updi_programmer.Target.Emulator.Agree.{
  write_data_agree, write_data_words_agree, read_data_agree,
}
use updi_programmer.Target.Emulator.Connected.{signature, connect_erase_write_verify}
use updi_programmer.Target.Emulator.Nvm.{Describes}
use updi_programmer.Target.Emulator.Session.{write_flash-read_flash}
use updi_programmer.Target.Emulator.Verify.{verify_flash-Reports}
use updi_programmer.Target.Emulator.Write.{HasPages, live}
use updi_programmer.Tests.Data.{preset_p3, exceptions, wide, fresh, greeting}

-- the first row of the table
abbrev ea28 : Row
ea28 =
    device 0x1E9620 "avr64ea28" 0x00800000 0x10000 0x80 0x00001400 0x200 0x8 0x00001050 0x9
      0x00001080 0x40 0x40 0x00001100 0x00001000 0x00000F00 3 updi_nvm_variant_p3

-- an AVR64EA28, its flash written over with 7
abbrev ea_memory : Memory
ea_memory = record {
  flash = λ i. 7;
  io =
      λ i. if i == 0x100 then 0x1E else if i == 0x101 then 0x96 else if i == 0x102 then 0x20 else 0;
}

abbrev ea_core : Core
ea_core = record {
  memory = ea_memory;
  cs = λ i. if i == 0 then 0x30 else 0;
  ptr = 0;
  repeat_next = 0;
  nvm_key = false;
  erase_key = false;
}

ea28-Describes : Describes preset_p3 ea28
unfolding variant_desc
ea28-Describes = record {
  base = refl;
  status = refl;
  ctrla = refl;
  erase = refl;
  below = omega arith;
  small = omega arith;
}

ea28-HasPages : HasPages ea28 64
ea28-HasPages = record { page = refl; some_words = omega arith; buffer = omega arith }

ea28_found : find_by_id (id_from_sig (signature preset_p3 ea_memory)) ≡ some ea28
unfolding find_by_id id_from_sig read_range mem_read
ea28_found = refl

abbrev session : UpdiSession Emu
session = start (emu ea_core idle [] 0)

connect_erase_write_verify_example :
    (s' : UpdiSession Emu) × ((connect (emu_transport preset_p3)
          >> chip_erase (emu_transport preset_p3)
          >> write_flash (emu_transport preset_p3) greeting
          >> verify_flash (emu_transport preset_p3) greeting)
        (record session { link = at_rest false 20 true ea_core 0 })
      ≡ (done none, s'))
    × (read_range preset_p3 s'.link.world.core.memory 0x800000 5 ≡ greeting)
unfolding sib_bytes
connect_erase_write_verify_example =
    connect_erase_write_verify preset_p3 20 ea28 ea28-Describes 64 ea28-HasPages false true 1 0
      greeting ea_core session refl (λ z. omega arith) (omega arith) (omega arith) ea28_found
      (omega arith, (omega arith, (omega arith, (omega arith, (omega arith, tt))))) (omega arith)
      (omega arith)
      (record {
        above = omega arith;
        below = omega arith;
        small = omega arith;
        controller = omega arith;
      })

-- a session that is connected to a target with its flash erased
abbrev open_session : UpdiSession Emu
open_session = record session { device = some ea28; connected = true; nvm_device = some ea28 }

fresh_reads :
    (j : ℕ)
    → leb 0x800000 j ≡ true
    → ltb j 0x800080 ≡ true
    → mem_read preset_p3 fresh.memory j ≡ 0xFF
unfolding mem_read
fresh_reads j p q = ground arith

write_flash-read_flash_example :
    ((write_flash (emu_transport preset_p3) greeting >> read_flash (emu_transport preset_p3) 5)
      (live preset_p3 ea28 ea28-Describes 20 true 64 ea28-HasPages open_session true fresh 0)).0
    ≡ done greeting
write_flash-read_flash_example =
    write_flash-read_flash preset_p3 ea28 ea28-Describes 20 true 64 ea28-HasPages open_session
      (record { device = refl; nvm_device = refl; connected = refl }) 1 0 true greeting fresh refl
      (omega arith, (omega arith, (omega arith, (omega arith, (omega arith, tt))))) (omega arith)
      (omega arith)
      (record {
        above = omega arith;
        below = omega arith;
        small = omega arith;
        controller = omega arith;
      })
      (λ j p q. fresh_reads j (ground arith) (ground arith))

verify_flash-Reports_example :
    (r : Option Mismatch) × (e' : Core) × (verify_flash
        (emu_transport preset_p3)
        greeting
        (record open_session { link = at_rest true 20 true fresh 0 })
      ≡ (done r, record open_session { link = at_rest true 20 true e' 0 }))
    × Reports r (read_range preset_p3 fresh.memory 0x800000 5) greeting
    × (e'.memory ≡ fresh.memory)
verify_flash-Reports_example =
    verify_flash-Reports preset_p3 ea28 20 true true 0 open_session
      (record { device = refl; nvm_device = refl; connected = refl }) greeting fresh refl
      (omega arith)

find_by_id-row_example : find_by_id 0x1E9620 ≡ some (row avr64ea28)
find_by_id-row_example = find_by_id-row 0 refl

write_data_agree_example :
    (C.write_data
      (emu_transport preset_p3)
      0x800010
      greeting
      (at_rest true 20 true fresh 0)).1.world.core.memory
    ≡ (Py.write_data wide 0x800010 greeting (quiet fresh)).1.core.memory
write_data_agree_example =
    write_data_agree preset_p3 true wide (datalink24-Speaks exceptions preset_p3 230400) 20 0 true
      0x800010 greeting fresh refl
      (omega arith, (omega arith, (omega arith, (omega arith, (omega arith, tt))))) (omega arith)
      (omega arith)

write_data_words_agree_example :
    (C.write_data_words
      (emu_transport preset_p3)
      0x800010
      (1 ∷ 2 ∷ 3 ∷ 4 ∷ [])
      (at_rest true 20 true fresh 0)).1.world.core.memory
    ≡ (Py.write_data_words wide 0x800010 (1 ∷ 2 ∷ 3 ∷ 4 ∷ []) (quiet fresh)).1.core.memory
write_data_words_agree_example =
    write_data_words_agree preset_p3 true wide (datalink24-Speaks exceptions preset_p3 230400) 20 0
      true 0x800010 2 (1 ∷ 2 ∷ 3 ∷ 4 ∷ []) fresh refl
      (omega arith, (omega arith, (omega arith, (omega arith, tt)))) refl (omega arith)
      (omega arith) (omega arith)

read_data_agree_example :
    (bytes : List ℕ) × ((C.read_data
        (emu_transport preset_p3)
        0x1100
        3
        (at_rest true 20 true ea_core 0)).0
      ≡ done bytes)
    × ((Py.read_data wide 0x1100 3 (quiet ea_core)).0 ≡ ok bytes)
read_data_agree_example =
    read_data_agree preset_p3 true wide (datalink24-Speaks exceptions preset_p3 230400) 20 0 true
      0x1100 3 ea_core refl (omega arith) (omega arith) (omega arith)

Reached-Consistent_example : Consistent (
    perform
      (emu_transport preset_p3)
      (writes greeting)
      (perform (emu_transport preset_p3) connects (start (emu ea_core idle [] 0))))
Reached-Consistent_example =
    Reached-Consistent (emu_transport preset_p3)
      (requested (writes greeting) (requested connects (started (emu ea_core idle [] 0))))

memory_calls-Ends_example :
    Ends (chip_erase (emu_transport preset_p3))
    × Ends (write_flash (emu_transport preset_p3) greeting)
    × Ends (verify_flash (emu_transport preset_p3) greeting)
    × Ends (read_flash (emu_transport preset_p3) 700)
    × Ends (read_fuses (emu_transport preset_p3) 700)
    × Ends (write_fuse (emu_transport preset_p3) 5 0xC9)
memory_calls-Ends_example = memory_calls-Ends (emu_transport preset_p3) greeting 700 5 0xC9
