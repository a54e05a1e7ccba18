-- ===== src/Target/Flash.antt =====
-- A flash write by the driver of nvmp3.py, carried out by the target.
use updi_programmer.Prelude.{
  ℕ, zero, suc, ◌+◌, ◌*◌, ◌%◌, ◌^◌, ◌<◌, ◌≤◌, ◌≡◌, ◌≢◌, refl, ap, ◌∙◌, false, List, ◌∷◌, arith, ltb,
}
use native.Mathlib.Nat.{mod-eq_of_lt}
use updi_programmer.Prelude.Lists.{length}
use updi_programmer.Exec.{ok, raise_if}
use updi_programmer.Serial.{Clock}
use updi_programmer.Timeout.{poll_until, poll_loop, start_timeout, expired}
use updi_programmer.Link.{Datalink}
use updi_programmer.ReadWrite.{updi_read_write}
use updi_programmer.Nvm.{registers_p3, nvm_p3}
use updi_programmer.Nvm.Controller.{
  Bus, or_timeout, poll_status, wait_nvm_ready, execute_nvm_command,
}
use updi_programmer.Nvm.Paged
use updi_programmer.Target.Memory.{Preset, Memory, mem_read, mem_write, read_range}
use updi_programmer.Target.Device.{Core}
use updi_programmer.Target.Line.{Line, quiet}
use updi_programmer.Target.Link.{Speaks}
use updi_programmer.Target.Transfer.{IsBytes}
use updi_programmer.Target.Transfer.RoundTrip.{InFlash, read_range-store_all}
use updi_programmer.Target.Transfer.Words.{write_data_words_lem}
use updi_programmer.Target.Programming.{Still}

-- A target with the NVM controller of P:3, whose registers lie below the flash and within the
-- addresses of the link.
pub record HasP3 (preset : Preset) (space : ℕ) : Type 0 where
  pub status : preset.status_offset ≡ 6
  pub ctrla : preset.ctrla_offset ≡ 0
  pub no_fuse : preset.cmd_write_fuse ≡ 0xFF
  pub erase : preset.cmd_chip_erase ≡ 0x20
  pub below : preset.nvmctrl_base + 6 < preset.flash_base
  pub reach : preset.nvmctrl_base + 6 < space

module _ (preset : Preset) (space : ℕ) (p3 : HasP3 preset space) where
  status_idle : (m : Memory) → mem_read preset m (preset.nvmctrl_base + 6) ≡ 0
  unfolding mem_read
  status_idle m = ground arith

  -- a command other than the chip erase leaves the flash alone
  command_flash :
      (c : ℕ) (m : Memory)
      → c ≢ 0x20
      → (mem_write preset (preset.nvmctrl_base + 0) c m).flash ≡ m.flash
  unfolding mem_write
  command_flash c m h = ground arith

-- flash with the same content reads the same
pub read_range-flash :
    (preset : Preset) (a n : ℕ) (m m' : Memory)
    → InFlash preset a n
    → m.flash ≡ m'.flash
    → read_range preset m a n ≡ read_range preset m' a n
unfolding read_range mem_read
read_range-flash preset a zero m m' h e = refl
read_range-flash preset a (suc n) m m' h e =
    let next : (a + 1) % 2 ^ 32 ≡ a + 1 = omega arith in
    let here : mem_read preset m a ≡ mem_read preset m' a = ground arith in
    rw (next, here)
      (ap (λ (l : List ℕ). mem_read preset m' a ∷ l)
        (read_range-flash preset (a + 1) n m m' (omega arith) e))

-- a driver's view of the line, with the given fuel
abbrev pub line_bus : Preset → Datalink Line → Clock Line → ℕ → Bus Line
line_bus preset dl clock fuel = record {
  readwrite = updi_read_write dl;
  clock = clock;
  fuel = fuel;
  nvmctrl_address = preset.nvmctrl_base;
}

module _ (preset : Preset) (space : ℕ) (p3 : HasP3 preset space) (dl : Datalink Line)
    (link : Speaks preset space dl) (clock : Clock Line) (t : ℕ) (still : Still clock t)
    (fuel : ℕ) where
  abbrev bus : Bus Line
  bus = line_bus preset dl clock (suc fuel)

  expect_ready_lem : (e : Core) → Paged.expect_ready registers_p3 bus (quiet e) ≡ (ok tt, quiet e)
  unfolding Paged.expect_ready wait_nvm_ready poll_status poll_until poll_loop start_timeout expired
      or_timeout raise_if
  expect_ready_lem e =
      let early : ltb (t + 100) t ≡ false = ground arith in
      let inside : (preset.nvmctrl_base + 6) % space ≡ preset.nvmctrl_base + 6 =
        mod-eq_of_lt p3.reach in
      rw (
        still.reads (quiet e),
        still.reads (quiet e),
        early,
        link.ld_lem (preset.nvmctrl_base + 6) e,
        inside,
        status_idle preset space p3 e.memory,
      )

  command_lem :
      (c : ℕ) (e : Core)
      → c < 256
      → execute_nvm_command registers_p3 bus c (quiet e) ≡ (
        ok tt,
        quiet (record e { memory = mem_write preset (preset.nvmctrl_base + 0) c e.memory }),
      )
  unfolding execute_nvm_command
  command_lem c e h =
      let inside : (preset.nvmctrl_base + 0) % space ≡ preset.nvmctrl_base + 0 =
        mod-eq_of_lt (omega arith) in
      let byte : c % 256 ≡ c = omega arith in
      rw (link.st_lem (preset.nvmctrl_base + 0) c e, inside, byte)

  -- Through a link that speaks to a quiet P:3 target with no repeat pending, and with a clock that
  -- stands still, `write_flash` of nvmp3.py of an even number of bytes, from 2 to 512 and within the
  -- flash and the addresses of the link, returns, the target is quiet again, and its flash holds the
  -- bytes.
  pub write_flash-holds :
      (a words : ℕ) (bs : List ℕ) (e : Core)
      → e.repeat_next ≡ 0
      → IsBytes bs
      → length bs ≡ words * 2
      → 0 < words
      → words ≤ 256
      → a + length bs ≤ space
      → InFlash preset a (length bs)
      → (e' : Core) × ((nvm_p3 (line_bus preset dl clock (suc fuel))).write_flash a bs (quiet e)
          ≡ (ok tt, quiet e'))
        × (read_range preset e'.memory a (length bs) ≡ bs)
        × (e'.repeat_next ≡ 0)
  unfolding Paged.write_flash Paged.write_nvm
  write_flash-holds a words bs e r v n p q s h =
      let ctrla = preset.nvmctrl_base + 0 in
      let e1 = record e { memory = mem_write preset ctrla 0x0F e.memory } in
      let (e2, written, held, r2) =
        write_data_words_lem preset space dl link a words bs e1 r v n p q s in
      let e3 = record e2 { memory = mem_write preset ctrla 4 e2.memory } in
      let e4 = record e3 { memory = mem_write preset ctrla 0 e3.memory } in
      let flash : e4.memory.flash ≡ e2.memory.flash =
        command_flash preset space p3 0 e3.memory (λ z. cc)
        ∙ command_flash preset space p3 4 e2.memory (λ z. omega arith) in
      (
        e4,
        rw (
          expect_ready_lem e,
          command_lem 0x0F e (omega arith),
          expect_ready_lem e1,
          written,
          command_lem 4 e2 (omega arith),
          expect_ready_lem e3,
          command_lem 0 e3 (omega arith),
        ),
        read_range-flash preset a (length bs) e4.memory e2.memory h flash
            ∙ ap (λ (m : Memory). read_range preset m a (length bs)) held
            ∙ read_range-store_all preset a bs e1.memory h,
        r2,
      )
