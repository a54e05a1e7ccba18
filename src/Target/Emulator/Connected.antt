-- ===== src/Target/Emulator/Connected.antt =====
-- `updi_session_connect` of updi/updi_session.c with the emulator at the other end of the link, and
-- what a connected session then does.
use updi_programmer.Prelude.{
  ℕ, ◌+◌, ◌*◌, ◌%◌, ◌^◌, ◌<◌, ◌≤◌, ◌≡◌, ◌≢◌, refl, ap, ◌∙◌, Bool, true, false, not, none, some,
  List, arith, ◌==◌, if◌then◌else◌,
}
use updi_programmer.Prelude.Lists.{length}
use updi_programmer.Devices.Table.{Row}
use updi_programmer.Port.Call.{done, ◌>>=◌, ◌>>◌}
use updi_programmer.Port.Link.{UpdiLink}
use updi_programmer.Port.Device.{find_by_id, id_from_sig}
use updi_programmer.Port.Nvm.{SibInfo, read_signature, enter_progmode}
use updi_programmer.Port.Session.{
  UpdiSession, identify, open_device, connect, chip_erase, write_flash, verify_flash,
}
use updi_programmer.Target.Memory.{Preset, Memory, read_range}
use updi_programmer.Target.Device.{Core}
use updi_programmer.Target.Transfer.{IsBytes}
use updi_programmer.Target.Transfer.RoundTrip.{InFlash}
use updi_programmer.Target.Emulator.{Emu, emu_transport, at_rest, reach}
use updi_programmer.Target.Emulator.Data.{port_read_data_lem}
use updi_programmer.Target.Emulator.Nvm.{Describes}
use updi_programmer.Target.Emulator.Write.{HasPages}
use updi_programmer.Target.Emulator.Session.{erase_write_verify}
use updi_programmer.Target.Emulator.Connect.{
  prepared, info, activate_lem, read_sib_info_lem, enter_progmode_lem,
}

-- the session once the device is found
abbrev found : UpdiSession Emu → UpdiLink Emu → SibInfo → List ℕ → Row → UpdiSession Emu
found s link sib sig d = record s {
  link = link;
  sib = sib;
  sig = sig;
  nvm_device = some d;
  device = some d;
  connected = true;
}

-- the three bytes of the signature
abbrev pub signature : Preset → Memory → List ℕ
signature preset m = read_range preset m 0x1100 3

-- the width that follows from the SIB
abbrev is_wide : Preset → Bool
is_wide preset = not ((info preset).nvm_version == 0)

abbrev width : Bool → ℕ
width narrow = if (if narrow then 2 else 3) == 3 then 3 else 2

width_lem : (b : Bool) → width b ≡ (if not b then 3 else 2)
width_lem true = refl
width_lem false = refl

module _ (preset : Preset) (wait : ℕ) (d : Row) where
  identify_lem :
      (wide ack : Bool) (now : ℕ) (e : Core) (s : UpdiSession Emu)
      → e.repeat_next ≡ 0
      → find_by_id (id_from_sig (signature preset e.memory)) ≡ some d
      → (e' : Core) × (identify
            (emu_transport preset)
            (record s { link = at_rest wide wait ack e now })
          ≡ (done tt, found s (at_rest wide wait ack e' now) s.sib (signature preset e.memory) d))
        × (e'.memory ≡ e.memory)
        × (e'.repeat_next ≡ 0)
  unfolding identify read_signature
  identify_lem true ack now e s r f = (
    record e { repeat_next = 0; ptr = (0x1100 + 3) % 2 ^ 32 },
    rw (
      port_read_data_lem preset wait now true ack 0x1100 3 e r (omega arith) (omega arith)
          (omega arith),
      f,
    ),
    refl,
    refl,
  )
  identify_lem false ack now e s r f = (
    record e { repeat_next = 0; ptr = (0x1100 + 3) % 2 ^ 32 },
    rw (
      port_read_data_lem preset wait now false ack 0x1100 3 e r (omega arith) (omega arith)
          (omega arith),
      f,
    ),
    refl,
    refl,
  )

  -- the width is set, and the programming mode entered
  open_round :
      (w ack : Bool) (now now1 : ℕ) (e e1 : Core) (s : UpdiSession Emu)
      → enter_progmode (emu_transport preset) (at_rest (is_wide preset) wait ack e now)
        ≡ (done tt, at_rest (is_wide preset) wait ack e1 now1)
      → open_device
          (emu_transport preset)
          (info preset)
          (record s { link = at_rest w wait ack e now })
        ≡ identify (emu_transport preset) (record s {
          sib = info preset;
          nvm_device = none;
          link = at_rest (is_wide preset) wait ack e1 now1;
        })
  unfolding open_device
  open_round w ack now now1 e e1 s entered =
      rw (width_lem ((info preset).nvm_version == 0), entered)

  -- up to the device
  connect_round :
      (w ack : Bool) (now : ℕ) (e : Core) (s : UpdiSession Emu)
      → e.cs 0 ≢ 0
      → connect (emu_transport preset) (record s { link = at_rest w wait ack e now })
        ≡ open_device (emu_transport preset) (info preset) (record s {
          connected = false;
          device = none;
          link = at_rest w wait true (prepared preset wait w now e) now;
        })
  unfolding connect
  connect_round w ack now e s h = rw (
    activate_lem preset wait w now ack e h,
    read_sib_info_lem preset wait w now true (prepared preset wait w now e),
  )

  connect_lem :
      (w ack : Bool) (now : ℕ) (e : Core) (s : UpdiSession Emu)
      → e.repeat_next ≡ 0
      → e.cs 0 ≢ 0
      → e.cs 0x0B < 256
      → e.cs 0x07 < 256
      → find_by_id (id_from_sig (signature preset e.memory)) ≡ some d
      → (e' : Core) × (now' : ℕ) × (sig : List ℕ) × (connect
            (emu_transport preset)
            (record s { link = at_rest w wait ack e now })
          ≡ (done tt, found s (at_rest (is_wide preset) wait true e' now') (info preset) sig d))
        × (e'.memory ≡ e.memory)
        × (e'.repeat_next ≡ 0)
        × (sig ≡ signature preset e.memory)
  connect_lem w ack now e s r alive b k f =
      let wide = is_wide preset in
      let e0 = prepared preset wait w now e in
      let s0 = record s { connected = false; device = none } in
      let (e1, now1, entered, programming, same, r1) =
        enter_progmode_lem preset wait wide true now e0 b k in
      let (e2, identified, same2, r2) =
        identify_lem wide true now1 e1 (record s0 { sib = info preset; nvm_device = none }) (r1 ∙ r)
          (ap (λ (m : Memory). find_by_id (id_from_sig (signature preset m))) same ∙ f) in
      (
        e2,
        now1,
        signature preset e1.memory,
        connect_round w ack now e s alive
            ∙ open_round w true now now1 e0 e1 s0 entered
            ∙ identified,
        same2 ∙ same,
        r2,
        ap (λ (m : Memory). signature preset m) same,
      )

  -- A session that connects to an emulator at rest with no repeat pending, then erases the chip, writes
  -- up to `count` pages of bytes and verifies them: all four calls return, no mismatch is found, and
  -- the flash holds the bytes. The target answers with a nonzero STATUSA, its status registers are
  -- bytes, and its signature is that of the device; the device's row describes the emulated
  -- controller, its pages are an even number of bytes up to 256, and the pages written lie in the
  -- emulated flash and within the addresses that follow from the SIB.
  pub connect_erase_write_verify :
      (h : Describes preset d) (words : ℕ)
      → HasPages d words
      → (w ack : Bool) (count now : ℕ) (bs : List ℕ) (e : Core) (s : UpdiSession Emu)
      → e.repeat_next ≡ 0
      → e.cs 0 ≢ 0
      → e.cs 0x0B < 256
      → e.cs 0x07 < 256
      → find_by_id (id_from_sig (signature preset e.memory)) ≡ some d
      → IsBytes bs
      → length bs ≤ count * d.flash_page_size
      → d.flash_address + count * d.flash_page_size ≤ reach (is_wide preset)
      → InFlash preset d.flash_address (count * d.flash_page_size)
      → (s' : UpdiSession Emu) × ((connect (emu_transport preset)
              >> chip_erase (emu_transport preset)
              >> write_flash (emu_transport preset) bs
              >> verify_flash (emu_transport preset) bs)
            (record s { link = at_rest w wait ack e now })
          ≡ (done none, s'))
        × (read_range preset s'.link.world.core.memory d.flash_address (length bs) ≡ bs)
  unfolding ◌>>=◌
  connect_erase_write_verify h words pages w ack count now bs e s r alive b k f v n reaches flash =
      let (e1, now1, sig, connected, same, r1, is_sig) = connect_lem w ack now e s r alive b k f in
      let s1 = found s (at_rest (is_wide preset) wait true e1 now1) (info preset) sig d in
      let (ack2, e2, now2, programmed, held) =
        erase_write_verify preset d h wait (is_wide preset) words pages s1
          (record { device = refl; nvm_device = refl; connected = refl }) count now1 true bs e1 r1 v
          n reaches flash in
      (
        record s1 { link = at_rest (is_wide preset) wait ack2 e2 now2 },
        rw connected (unfold ◌>>=◌ in programmed),
        held,
      )
