-- ===== src/Target/Emulator/Nvm.antt =====
-- The NVM commands of updi/updi_nvm.c, run on the emulator.
use updi_programmer.Prelude.{
  ℕ, suc, ◌+◌, ◌*◌, ◌%◌, ◌^◌, ◌<◌, ◌≤◌, ◌≡◌, ◌≢◌, refl, ap, ◌∙◌, Bool, true, false, List, arith,
  ◌==◌, le→ltb, Bool-cases, inl, inr,
}
use updi_programmer.Prelude.Lists.{length}
use updi_programmer.Nvm.Controller.{has_flags}
use updi_programmer.Devices.Table.{Row, updi_nvm_variant_p0, updi_nvm_variant_p3}
use updi_programmer.Port.Call.{done, ◌>>=◌, fail_if, outcome_of, regardless, settle}
use updi_programmer.Port.Link.{UpdiLink, millis}
use updi_programmer.Port.Nvm.{NvmVariantDesc, nvm_desc, variant_desc}
use updi_programmer.Port.Nvm.Memory.{
  execute_nvm_command, poll_ready, ready_loop, wait_nvm_ready, finish, chip_erase, write_flash_page,
}
use updi_programmer.Target.Memory.{Preset, Memory, mem_read, mem_write}
use updi_programmer.Target.Device.{Core, store_all}
use updi_programmer.Target.Transfer.{IsBytes}
use updi_programmer.Target.Transfer.RoundTrip.{InFlash}
use updi_programmer.Target.Transfer.Frame.{store_all-flash}
use updi_programmer.Target.Emulator.{Emu, emu_transport, at_rest, reach}
use updi_programmer.Target.Emulator.Direct.{ld_byte_lem, st_byte_lem}
use updi_programmer.Target.Emulator.Words.{port_write_data_words_lem}

-- what the two descriptions of a controller share
record Works (d : NvmVariantDesc) : Type 0 where
  status : d.reg_status < 16
  ctrla : d.reg_ctrla ≡ 0
  no_error : has_flags 0 d.status_wrerr_mask ≡ false
  not_busy : has_flags 0 d.status_busy_mask ≡ false
  clears : d.cmd_page_buffer_clear ≢ d.cmd_chip_erase
  writes : d.cmd_write_page ≢ d.cmd_chip_erase
  idles : d.cmd_nocmd ≢ d.cmd_chip_erase
  erases : 0 < d.cmd_chip_erase

variant_desc-Works : (v : _) → Works (variant_desc v)
unfolding variant_desc
variant_desc-Works updi_nvm_variant_p3 = record {
  status = omega arith;
  ctrla = refl;
  no_error = refl;
  not_busy = refl;
  clears = λ z. omega arith;
  writes = λ z. omega arith;
  idles = λ z. omega arith;
  erases = omega arith;
}
variant_desc-Works updi_nvm_variant_p0 = record {
  status = omega arith;
  ctrla = refl;
  no_error = refl;
  not_busy = refl;
  clears = λ z. omega arith;
  writes = λ z. omega arith;
  idles = λ z. omega arith;
  erases = omega arith;
}

-- The row describes the emulated controller, which lies below the flash and within 16-bit addresses.
pub record Describes (preset : Preset) (d : Row) : Type 0 where
  pub base : d.nvmctrl_base ≡ preset.nvmctrl_base
  pub status : (nvm_desc d).reg_status ≡ preset.status_offset
  pub ctrla : preset.ctrla_offset ≡ 0
  pub erase : (nvm_desc d).cmd_chip_erase ≡ preset.cmd_chip_erase
  pub below : preset.nvmctrl_base + 16 < preset.flash_base
  pub small : preset.nvmctrl_base + 16 < 2 ^ 16

module _ (preset : Preset) (d : Row) (h : Describes preset d) (wait : ℕ) (wide : Bool) where
  abbrev rest : Bool → Core → ℕ → UpdiLink Emu
  rest ack e now = at_rest wide wait ack e now

  abbrev works : Works (nvm_desc d)
  works = variant_desc-Works d.nvm_variant

  -- an address of a register
  pub register_inside :
      (w : Bool) (r : ℕ)
      → r < 16
      → (d.nvmctrl_base + r) % 2 ^ 32 % reach w ≡ preset.nvmctrl_base + r
  register_inside true r p = rw (h.base) (let s = h.small in omega arith)
  register_inside false r p = rw (h.base) (let s = h.small in omega arith)

  status_idle : (m : Memory) → mem_read preset m (preset.nvmctrl_base + (nvm_desc d).reg_status) ≡ 0
  unfolding mem_read
  status_idle m = let s = h.status in ground arith

  ready_loop_lem :
      (ack : Bool) (n start timeout now : ℕ) (e : Core)
      → ready_loop (emu_transport preset) d (suc n) start timeout (rest ack e now)
        ≡ (done tt, rest ack e now)
  unfolding ready_loop poll_ready fail_if
  ready_loop_lem ack n start timeout now e =
      let r = (nvm_desc d).reg_status in
      rw (
        ld_byte_lem preset wait ack now wide ((d.nvmctrl_base + r) % 2 ^ 32) e,
        register_inside wide r works.status,
        status_idle e.memory,
        works.no_error,
        works.not_busy,
      )

  pub wait_ready_lem :
      (ack : Bool) (timeout now : ℕ) (e : Core)
      → wait_nvm_ready (emu_transport preset) d timeout (rest ack e now)
        ≡ (done tt, rest ack e ((now + 1) % 2 ^ 32))
  unfolding wait_nvm_ready ◌>>=◌ millis
  wait_ready_lem ack timeout now e =
      ready_loop_lem ack 199999 ((now + 1) % 2 ^ 32) timeout ((now + 1) % 2 ^ 32) e

  -- the target once the command register is set
  abbrev commanded : ℕ → Core → Core
  commanded c e = record e { memory = mem_write preset preset.nvmctrl_base c e.memory }

  pub command_lem :
      (ack : Bool) (c now : ℕ) (e : Core)
      → execute_nvm_command (emu_transport preset) d c (rest ack e now)
        ≡ (done tt, rest ack (commanded c e) now)
  unfolding execute_nvm_command
  command_lem ack c now e =
      let r = (nvm_desc d).reg_ctrla in
      let here : preset.nvmctrl_base + 0 ≡ preset.nvmctrl_base = omega arith in
      rw (
        works.ctrla,
        st_byte_lem preset wait ack now wide ((d.nvmctrl_base + 0) % 2 ^ 32) c e,
        register_inside wide 0 (omega arith),
        here,
      )

  command_flash :
      (c : ℕ) (m : Memory)
      → c ≢ (nvm_desc d).cmd_chip_erase
      → (mem_write preset preset.nvmctrl_base c m).flash ≡ m.flash
  unfolding mem_write
  command_flash c m p = let s = h.erase in let b = h.below in ground arith

  erase_flash :
      (m : Memory)
      → (mem_write preset preset.nvmctrl_base (nvm_desc d).cmd_chip_erase m).flash ≡ (λ i. 0xFF)
  unfolding mem_write
  erase_flash m =
      let s = h.erase in let b = h.below in let c = h.ctrla in let w = works.erases in ground arith

  -- The last wait returns, and the command register is written only with the clearing command.
  finish_lem :
      (ack : Bool) (timeout now : ℕ) (e : Core)
      → (e' : Core) × (now' : ℕ) × (finish
            (emu_transport preset)
            d
            timeout
            (nvm_desc d).clear_cmd_after
            (rest ack e now)
          ≡ (done tt, rest ack e' now'))
        × (e'.memory.flash ≡ e.memory.flash)
        × (e'.repeat_next ≡ e.repeat_next)
  unfolding finish outcome_of regardless settle
  finish_lem ack timeout now e =
      let n = (now + 1) % 2 ^ 32 in
      let c = (nvm_desc d).cmd_nocmd in
      elim (Bool-cases (nvm_desc d).clear_cmd_after) [
        | inl clear ↦ (
          commanded c e,
          n,
          rw (wait_ready_lem ack timeout now e, clear, command_lem ack c n e),
          command_flash c e.memory works.idles,
          refl,
        )
        | inr keep ↦ (e, n, rw (wait_ready_lem ack timeout now e, keep), refl, refl)
      ]

  pub chip_erase_lem :
      (ack : Bool) (now : ℕ) (e : Core)
      → (e' : Core) × (now' : ℕ) × (chip_erase (emu_transport preset) d (rest ack e now)
          ≡ (done tt, rest ack e' now'))
        × (e'.memory.flash ≡ (λ i. 0xFF))
        × (e'.repeat_next ≡ e.repeat_next)
  unfolding chip_erase
  chip_erase_lem ack now e =
      let n = (now + 1) % 2 ^ 32 in
      let c = (nvm_desc d).cmd_chip_erase in
      let (e', n', ends, flash, r) = finish_lem ack 500 n (commanded c e) in
      (
        e',
        n',
        rw (wait_ready_lem ack 100 now e, command_lem ack c n e) ends,
        flash ∙ erase_flash e.memory,
        r,
      )

  -- a page of bytes within the flash
  pub write_flash_page_lem :
      (ack : Bool) (a words now : ℕ) (bs : List ℕ) (e : Core)
      → e.repeat_next ≡ 0
      → IsBytes bs
      → length bs ≡ words * 2
      → 0 < words
      → words ≤ 256
      → length bs ≤ d.flash_page_size
      → a + length bs ≤ reach wide
      → InFlash preset a (length bs)
      → (ack' : Bool) × (e' : Core) × (now' : ℕ) × (write_flash_page
            (emu_transport preset)
            d
            a
            bs
            (rest ack e now)
          ≡ (done tt, rest ack' e' now'))
        × (e'.memory.flash ≡ (store_all preset a bs e.memory).flash)
        × (e'.repeat_next ≡ 0)
  unfolding write_flash_page fail_if
  write_flash_page_lem ack a words now bs e r v n p q page s flash =
      let nonempty : (length bs == 0) ≡ false = ground arith in
      let even : (length bs % 2 == 0) ≡ true = ground arith in
      let n1 = (now + 1) % 2 ^ 32 in
      let n2 = (n1 + 1) % 2 ^ 32 in
      let clear = (nvm_desc d).cmd_page_buffer_clear in
      let write = (nvm_desc d).cmd_write_page in
      let e1 = commanded clear e in
      let (e2, ack2, written, held, r2) =
        port_write_data_words_lem preset wait n2 wide ack a words bs e1 r v n p q s in
      let (e3, n3, ends, kept, r3) = finish_lem ack2 100 n2 (commanded write e2) in
      (
        ack2,
        e3,
        n3,
        rw
            (
              nonempty,
              even,
              le→ltb d.flash_page_size (length bs) page,
              wait_ready_lem ack 100 now e,
              command_lem ack clear n1 e,
              wait_ready_lem ack 100 n1 e1,
              written,
              command_lem ack2 write n2 e2,
            )
            ends,
        kept
            ∙ command_flash write e2.memory works.writes
            ∙ ap (λ (m : Memory). m.flash) held
            ∙ store_all-flash preset a bs e1.memory e.memory flash
                (command_flash clear e.memory works.clears),
        r3 ∙ r2,
      )
