-- ===== src/Target/Emulator/Agree.antt =====
-- The transfers of updi/updi_link.c beside those of readwrite.py, on the same target.
use updi_programmer.Prelude.{ℕ, ◌+◌, ◌*◌, ◌<◌, ◌≤◌, ◌≡◌, ap, sym, ◌∙◌, Bool, List}
use updi_programmer.Prelude.Lists.{length}
use updi_programmer.Exec.{ok}
use updi_programmer.Link.{Datalink}
use updi_programmer.ReadWrite as Py
use updi_programmer.Port.Call.{done}
use updi_programmer.Port.Link.Data as C
use updi_programmer.Target.Memory.{Preset, read_range}
use updi_programmer.Target.Device.{Core}
use updi_programmer.Target.Line.{Line, quiet}
use updi_programmer.Target.Link.{Speaks}
use updi_programmer.Target.Transfer.{IsBytes, read_data_lem, write_data_lem}
use updi_programmer.Target.Transfer.Words.{write_data_words_lem}
use updi_programmer.Target.Emulator.{emu_transport, at_rest, reach}
use updi_programmer.Target.Emulator.Data.{port_read_data_lem, port_write_data_lem}
use updi_programmer.Target.Emulator.Words.{port_write_data_words_lem}

module _ (preset : Preset) (wide : Bool) (dl : Datalink Line) (link : Speaks preset (reach wide) dl)
    (wait now : ℕ) (ack : Bool) where
  -- On the same quiet target with no repeat pending, `write_data` of the C port and of readwrite.py,
  -- the one through a data link as wide as the other's addresses, leave the same memory behind after a
  -- write of at least one byte, within the addresses of the link.
  pub write_data_agree :
      (a : ℕ) (bs : List ℕ) (e : Core)
      → e.repeat_next ≡ 0
      → IsBytes bs
      → 0 < length bs
      → a + length bs ≤ reach wide
      → (C.write_data (emu_transport preset) a bs (at_rest wide wait ack e now)).1.world.core.memory
        ≡ (Py.write_data dl a bs (quiet e)).1.core.memory
  write_data_agree a bs e r v p s =
      let (x, written) = port_write_data_lem preset wait now wide ack a bs e r p s in
      let (y, written') = write_data_lem preset (reach wide) dl link a bs e r v s in
      rw (written, written')

  -- On the same quiet target with no repeat pending, `write_data_words` of the C port and of
  -- readwrite.py, with addresses of the same width, leave the same memory behind after a write of an
  -- even number of bytes, from 2 to 512 and within the addresses of the link.
  pub write_data_words_agree :
      (a words : ℕ) (bs : List ℕ) (e : Core)
      → e.repeat_next ≡ 0
      → IsBytes bs
      → length bs ≡ words * 2
      → 0 < words
      → words ≤ 256
      → a + length bs ≤ reach wide
      → (C.write_data_words
          (emu_transport preset)
          a
          bs
          (at_rest wide wait ack e now)).1.world.core.memory
        ≡ (Py.write_data_words dl a bs (quiet e)).1.core.memory
  write_data_words_agree a words bs e r v n p q s =
      let (e1, ack1, written, held, r1) =
        port_write_data_words_lem preset wait now wide ack a words bs e r v n p q s in
      let (e2, written', held', r2) =
        write_data_words_lem preset (reach wide) dl link a words bs e r v n p q s in
      ap (λ x. x.1.world.core.memory) written
      ∙ held
      ∙ sym (ap (λ x. x.1.core.memory) written' ∙ held')

  -- On the same quiet target with no repeat pending, `read_data` of the C port and of readwrite.py,
  -- with addresses of the same width, return the same bytes, for 1 to 256 bytes from an address that
  -- the link can express.
  pub read_data_agree :
      (a n : ℕ) (e : Core)
      → e.repeat_next ≡ 0
      → 0 < n
      → n ≤ 256
      → a < reach wide
      → (bytes : List ℕ) × ((C.read_data (emu_transport preset) a n (at_rest wide wait ack e now)).0
          ≡ done bytes)
        × ((Py.read_data dl a n (quiet e)).0 ≡ ok bytes)
  read_data_agree a n e r p q s = (
    read_range preset e.memory a n,
    rw (port_read_data_lem preset wait now wide ack a n e r p q s),
    rw (read_data_lem preset (reach wide) dl link a n e r p q s),
  )
