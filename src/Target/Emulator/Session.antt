-- ===== src/Target/Emulator/Session.antt =====
-- The session of updi/updi_session.c with the emulator at the other end of its link.
use updi_programmer.Prelude.{
  Option, ℕ, ◌+◌, ◌*◌, ◌≤◌, ◌≡◌, refl, ap, sym, ◌∙◌, Bool, false, none, List, [], arith, ◌==◌,
  le→ltb,
}
use updi_programmer.Prelude.Lists.{length}
use updi_programmer.Devices.Table.{Row}
use updi_programmer.Port.Call.{done, fail_if, ◌>>=◌, ◌>>◌}
use updi_programmer.Port.Session.{
  UpdiSession, Mismatch, connected_device, chip_erase, write_flash, write_pages, verify_flash,
  first_mismatch, read_flash, read_loop,
}
use updi_programmer.Target.Memory.{Preset, Memory, mem_read, read_range}
use updi_programmer.Target.Device.{Core}
use updi_programmer.Target.Transfer.{IsBytes}
use updi_programmer.Target.Transfer.RoundTrip.{InFlash}
use updi_programmer.Target.Emulator.{Emu, emu_transport, reach}
use updi_programmer.Target.Emulator.Nvm.{Describes, chip_erase_lem}
use updi_programmer.Target.Emulator.Read.{same_range, session_read_loop_lem}
use updi_programmer.Target.Emulator.Write.{HasPages, Erased, live}
use updi_programmer.Port.Session.Mismatches.{same_bytes}
use updi_programmer.Target.Emulator.Verify.{Connected, verify_flash_compares}
use updi_programmer.Target.Emulator.Pages.{write_pages_lem}

module _ (preset : Preset) where
  -- a flash of 0xFF only
  flash-Erased :
      (a n : ℕ) (m : Memory) → InFlash preset a n → m.flash ≡ (λ i. 0xFF) → Erased preset m a n
  unfolding mem_read
  flash-Erased a n m i e j p q = ground arith

module _ (preset : Preset) (d : Row) (h : Describes preset d) (wait : ℕ) (wide : Bool) (words : ℕ)
    (pages : HasPages d words) (s : UpdiSession Emu) (c : Connected s d) where
  abbrev session : Bool → Core → ℕ → UpdiSession Emu
  session = live preset d h wait wide words pages s

  session_erase_lem :
      (ack : Bool) (now : ℕ) (e : Core)
      → (e' : Core) × (now' : ℕ) × (chip_erase (emu_transport preset) (session ack e now)
          ≡ (done tt, session ack e' now'))
        × (e'.memory.flash ≡ (λ i. 0xFF))
        × (e'.repeat_next ≡ e.repeat_next)
  unfolding chip_erase
  session_erase_lem ack now e =
      let (e', now', ends, flash, r) = chip_erase_lem preset d h wait wide ack now e in
      (e', now', rw (c.device, c.nvm_device, ends), flash, r)

  -- the guards are passed
  write_flash-write_pages :
      (ack : Bool) (now : ℕ) (bs : List ℕ) (e : Core)
      → write_flash (emu_transport preset) bs (session ack e now)
        ≡ write_pages
            (emu_transport preset)
            d
            (length bs)
            d.flash_page_size
            0
            bs
            (session ack e now)
  unfolding write_flash connected_device fail_if
  write_flash-write_pages ack now bs e =
      let nonempty = pages.some_words in
      let shape = pages.page in
      let most = pages.buffer in
      let has_page : (d.flash_page_size == 0) ≡ false = ground arith in
      rw (c.device, c.connected, has_page, le→ltb 256 d.flash_page_size (omega arith))

  read_flash-read_loop :
      (ack : Bool) (now n : ℕ) (e : Core)
      → read_flash (emu_transport preset) n (session ack e now)
        ≡ read_loop (emu_transport preset) d n 0 n [] (session ack e now)
  unfolding read_flash connected_device
  read_flash-read_loop ack now n e = rw (c.device, c.connected)

  write_flash_lem :
      (count now : ℕ) (ack : Bool) (bs : List ℕ) (e : Core)
      → e.repeat_next ≡ 0
      → IsBytes bs
      → length bs ≤ count * d.flash_page_size
      → d.flash_address + count * d.flash_page_size ≤ reach wide
      → InFlash preset d.flash_address (count * d.flash_page_size)
      → Erased preset e.memory d.flash_address (count * d.flash_page_size)
      → (ack' : Bool) × (e' : Core) × (now' : ℕ) × (write_flash
            (emu_transport preset)
            bs
            (session ack e now)
          ≡ (done tt, session ack' e' now'))
        × (read_range preset e'.memory d.flash_address (length bs) ≡ bs)
        × (e'.repeat_next ≡ 0)
  write_flash_lem count now ack bs e r v b i f erased =
      let start : d.flash_address + 0 ≡ d.flash_address = omega arith in
      let (ack', e', now', ends, held, below, r') =
        write_pages_lem preset d h wait wide words pages s c.nvm_device (length bs) count 0 now ack
          bs e r v (omega arith) b (omega arith) (omega arith)
          (λ j p q. erased j (omega arith) (omega arith)) in
      (
        ack',
        e',
        now',
        write_flash-write_pages ack now bs e ∙ ends,
        same_range preset (sym start) refl refl ∙ held,
        r',
      )

  verify_flash_lem :
      (ack : Bool) (now : ℕ) (bs : List ℕ) (e : Core)
      → e.repeat_next ≡ 0
      → d.flash_address + length bs ≤ reach wide
      → read_range preset e.memory d.flash_address (length bs) ≡ bs
      → (e' : Core) × (verify_flash (emu_transport preset) bs (session ack e now)
          ≡ (done none, session ack e' now))
        × (e'.memory ≡ e.memory)
  verify_flash_lem ack now bs e r b held =
      let (e', ends, kept) = verify_flash_compares preset d wait wide ack now s c bs e r b in
      let none_found : first_mismatch 0 (read_range preset e.memory d.flash_address (length bs)) bs
          ≡ none =
        ap (λ (l : List ℕ). first_mismatch 0 l bs) held ∙ same_bytes 0 bs in
      (e', ends ∙ ap (λ (o : Option Mismatch). (done o, session ack e' now)) none_found, kept)

  -- A connected session erases the chip, writes the pages and verifies them.
  pub erase_write_verify :
      (count now : ℕ) (ack : Bool) (bs : List ℕ) (e : Core)
      → e.repeat_next ≡ 0
      → IsBytes bs
      → length bs ≤ count * d.flash_page_size
      → d.flash_address + count * d.flash_page_size ≤ reach wide
      → InFlash preset d.flash_address (count * d.flash_page_size)
      → (ack' : Bool) × (e' : Core) × (now' : ℕ) × ((chip_erase (emu_transport preset)
              >> write_flash (emu_transport preset) bs
              >> verify_flash (emu_transport preset) bs)
            (session ack e now)
          ≡ (done none, session ack' e' now'))
        × (read_range preset e'.memory d.flash_address (length bs) ≡ bs)
  unfolding ◌>>=◌
  erase_write_verify count now ack bs e r v b i f =
      let (e1, now1, erased, flash, r1) = session_erase_lem ack now e in
      let (ack2, e2, now2, written, held, r2) =
        write_flash_lem count now1 ack bs e1 (r1 ∙ r) v b i f
          (flash-Erased preset d.flash_address (count * d.flash_page_size) e1.memory f flash) in
      let (e3, verified, kept) = verify_flash_lem ack2 now2 bs e2 r2 (omega arith) held in
      (
        ack2,
        e3,
        now2,
        rw (erased, written, verified),
        ap (λ (m : Memory). read_range preset m d.flash_address (length bs)) kept ∙ held,
      )

  -- In a connected session whose link to the emulator is at rest with no repeat pending, bytes that
  -- are written over an erased range are what `read_flash` of their number returns. The device's row
  -- describes the emulated controller, its pages are an even number of bytes up to 256, and the bytes
  -- take up to `count` pages, which lie in the emulated flash and within the link's addresses.
  pub write_flash-read_flash :
      (count now : ℕ) (ack : Bool) (bs : List ℕ) (e : Core)
      → e.repeat_next ≡ 0
      → IsBytes bs
      → length bs ≤ count * d.flash_page_size
      → d.flash_address + count * d.flash_page_size ≤ reach wide
      → InFlash preset d.flash_address (count * d.flash_page_size)
      → Erased preset e.memory d.flash_address (count * d.flash_page_size)
      → ((write_flash (emu_transport preset) bs >> read_flash (emu_transport preset) (length bs))
          (session ack e now)).0
        ≡ done bs
  unfolding ◌>>=◌
  write_flash-read_flash count now ack bs e r v b i f erased =
      let start : d.flash_address + 0 ≡ d.flash_address = omega arith in
      let (ack1, e1, now1, written, held, r1) =
        write_flash_lem count now ack bs e r v b i f erased in
      let (e2, ends, kept, r2) =
        session_read_loop_lem preset d wait wide ack1 now1 s (length bs) 0 (length bs) [] e1 r1
          (omega arith) (omega arith) in
      rw (written, read_flash-read_loop ack1 now1 (length bs) e1, ends)
        (ap done (same_range preset start refl refl ∙ held))
