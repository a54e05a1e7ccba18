-- ===== src/Target/FlashP0.antt =====
-- A flash write and a fuse write by the driver of nvmp0.py, carried out by the target.
use updi_programmer.Prelude.{
  ℕ, suc, ◌+◌, ◌-◌, ◌*◌, ◌/◌, ◌%◌, ◌<◌, ◌≤◌, ◌≡◌, ◌≢◌, ap, ◌∙◌, true, false, List, [], ◌∷◌, arith,
  ltb, leb, ◌==◌,
}
use native.Mathlib.Nat.{mod-eq_of_lt}
use updi_programmer.Prelude.Lists.{length}
use updi_programmer.Exec.{ok, raise_if}
use updi_programmer.Serial.{Clock}
use updi_programmer.Timeout.{poll_until, poll_loop, start_timeout, expired}
use updi_programmer.Link.{Datalink}
use updi_programmer.Nvm.{nvm_p0}
use updi_programmer.Nvm.Controller.{Bus, or_timeout}
use updi_programmer.Nvm.P0
use updi_programmer.Target.Memory.{Preset, Memory, mem_read, mem_write, read_range, update}
use updi_programmer.Target.Device.{Core}
use updi_programmer.Target.Line.{Line, quiet}
use updi_programmer.Target.Link.{Speaks}
use updi_programmer.Target.Transfer.{IsBytes}
use updi_programmer.Target.Transfer.RoundTrip.{InFlash, read_range-store_all}
use updi_programmer.Target.Transfer.Words.{write_data_words_lem}
use updi_programmer.Target.Programming.{Still}
use updi_programmer.Target.Flash.{line_bus, read_range-flash}

-- A target with the NVM controller of P:0 at the start of the I/O region, with the flash above that
-- region, and within the addresses of the link.
pub record HasP0 (preset : Preset) (space : ℕ) : Type 0 where
  pub base : preset.nvmctrl_base ≡ 0x1000
  pub status : preset.status_offset ≡ 2
  pub ctrla : preset.ctrla_offset ≡ 0
  pub fuse_data : preset.fuse_data_offset ≡ 6
  pub fuse_addr : preset.fuse_addr_offset ≡ 8
  pub fuse : preset.cmd_write_fuse ≡ 7
  pub erase : preset.cmd_chip_erase ≡ 5
  pub above : 0x1600 ≤ preset.flash_base
  pub reach : 0x1600 ≤ space

module _ (preset : Preset) (space : ℕ) (p0 : HasP0 preset space) where
  status_idle : (m : Memory) → mem_read preset m (preset.nvmctrl_base + 2) ≡ 0
  unfolding mem_read
  status_idle m = ground arith

  -- a command other than the chip erase leaves the flash alone
  command_flash :
      (c : ℕ) (m : Memory)
      → c ≢ 5
      → (mem_write preset (preset.nvmctrl_base + 0) c m).flash ≡ m.flash
  unfolding mem_write
  command_flash c m h = ground arith

  -- a store to a register but the command register
  pub register_write :
      (r v : ℕ) (m : Memory)
      → 0 < r
      → r < 16
      → mem_write preset (preset.nvmctrl_base + r) v m ≡ record m { io = update m.io r v }
  unfolding mem_write
  register_write r v m p q =
      let flash : leb preset.flash_base (preset.nvmctrl_base + r) ≡ false = ground arith in
      let command : (preset.nvmctrl_base + r == preset.nvmctrl_base + preset.ctrla_offset) ≡ false =
        ground arith in
      let low : leb 0x1000 (preset.nvmctrl_base + r) ≡ true = ground arith in
      let high : ltb (preset.nvmctrl_base + r) 0x1600 ≡ true = ground arith in
      let index : preset.nvmctrl_base + r - 0x1000 ≡ r = omega arith in
      rw (flash, command, low, high, index)

  -- WRITE_FUSE copies the data register to the address in the address register
  pub fuse_command :
      (a v : ℕ) (m : Memory)
      → 0x1010 ≤ a
      → a < 0x1600
      → m.io 8 + m.io 9 * 256 ≡ a
      → m.io 6 ≡ v
      → mem_read preset (mem_write preset (preset.nvmctrl_base + 0) 7 m) a ≡ v
  unfolding mem_read mem_write
  fuse_command a v m lo hi where_to what =
      let ctrla : preset.nvmctrl_base + 0 ≡ preset.nvmctrl_base + preset.ctrla_offset =
        omega arith in
      ground arith

module _ (preset : Preset) (space : ℕ) (p0 : HasP0 preset space) (dl : Datalink Line)
    (link : Speaks preset space dl) (clock : Clock Line) (t : ℕ) (still : Still clock t)
    (fuel : ℕ) where
  abbrev bus : Bus Line
  bus = line_bus preset dl clock (suc fuel)

  expect_ready_lem : (e : Core) → P0.expect_ready bus (quiet e) ≡ (ok tt, quiet e)
  unfolding P0.expect_ready P0.wait_nvm_ready P0.poll_status poll_until poll_loop start_timeout
      expired or_timeout raise_if
  expect_ready_lem e =
      let early : ltb (t + 100) t ≡ false = ground arith in
      let inside : (preset.nvmctrl_base + 2) % space ≡ preset.nvmctrl_base + 2 =
        mod-eq_of_lt (omega arith) in
      rw (
        still.reads (quiet e),
        still.reads (quiet e),
        early,
        link.ld_lem (preset.nvmctrl_base + 2) e,
        inside,
        status_idle preset space p0 e.memory,
      )

  -- a store to a register of the controller
  register_lem :
      (r v : ℕ) (e : Core)
      → v < 256
      → r < 16
      → dl.st (preset.nvmctrl_base + r) v (quiet e) ≡ (
        ok tt,
        quiet (record e { memory = mem_write preset (preset.nvmctrl_base + r) v e.memory }),
      )
  register_lem r v e h b =
      let inside : (preset.nvmctrl_base + r) % space ≡ preset.nvmctrl_base + r =
        mod-eq_of_lt (omega arith) in
      let byte : v % 256 ≡ v = omega arith in
      rw (link.st_lem (preset.nvmctrl_base + r) v e, inside, byte)

  -- Through a link that speaks to a quiet P:0 target with no repeat pending, and with a clock that
  -- stands still, `write_flash` of nvmp0.py of an even number of bytes, from 2 to 512 and within the
  -- flash and the addresses of the link, returns, the target is quiet again, and its flash holds the
  -- bytes.
  pub write_flash-p0_holds :
      (a words : ℕ) (bs : List ℕ) (e : Core)
      → e.repeat_next ≡ 0
      → IsBytes bs
      → length bs ≡ words * 2
      → 0 < words
      → words ≤ 256
      → a + length bs ≤ space
      → InFlash preset a (length bs)
      → (e' : Core) × ((nvm_p0 (line_bus preset dl clock (suc fuel))).write_flash a bs (quiet e)
          ≡ (ok tt, quiet e'))
        × (read_range preset e'.memory a (length bs) ≡ bs)
        × (e'.repeat_next ≡ 0)
  unfolding P0.write_flash P0.write_nvm P0.execute_nvm_command
  write_flash-p0_holds a words bs e r v n p q s h =
      let ctrla = preset.nvmctrl_base + 0 in
      let e1 = record e { memory = mem_write preset ctrla 4 e.memory } in
      let (e2, written, held, r2) =
        write_data_words_lem preset space dl link a words bs e1 r v n p q s in
      let e3 = record e2 { memory = mem_write preset ctrla 1 e2.memory } in
      (
        e3,
        rw (
          expect_ready_lem e,
          register_lem 0 4 e (omega arith) (omega arith),
          expect_ready_lem e1,
          written,
          register_lem 0 1 e2 (omega arith) (omega arith),
          expect_ready_lem e3,
        ),
        read_range-flash preset a (length bs) e3.memory e2.memory h
              (command_flash preset space p0 1 e2.memory (λ z. omega arith))
            ∙ ap (λ (m : Memory). read_range preset m a (length bs)) held
            ∙ read_range-store_all preset a bs e1.memory h,
        r2,
      )

  -- Through a link that speaks to a quiet P:0 target, and with a clock that stands still,
  -- `write_fuse` of nvmp0.py of one byte, to an address of the target's I/O region above the NVM
  -- registers, returns, the target is quiet again, and the byte at the address is the one written.
  pub write_fuse-holds :
      (a v : ℕ) (e : Core)
      → 0x1010 ≤ a
      → a < 0x1600
      → v < 256
      → (e' : Core) × ((nvm_p0 (line_bus preset dl clock (suc fuel))).write_fuse a
            (v ∷ [])
            (quiet e)
          ≡ (ok tt, quiet e'))
        × (mem_read preset e'.memory a ≡ v)
  unfolding P0.write_fuse P0.load_fuse P0.execute_nvm_command
  write_fuse-holds a v e lo hi byte =
      let b = preset.nvmctrl_base in
      let last : b + 8 + 1 ≡ b + 9 = omega arith in
      let same : v % 256 ≡ v = omega arith in
      let e1 = record e { memory = mem_write preset (b + 8) (a % 256) e.memory } in
      let e2 = record e1 { memory = mem_write preset (b + 9) (a / 256 % 256) e1.memory } in
      let e3 = record e2 { memory = mem_write preset (b + 6) v e2.memory } in
      let e4 = record e3 { memory = mem_write preset (b + 0) 7 e3.memory } in
      let m1 = register_write preset space p0 8 (a % 256) e.memory (omega arith) (omega arith) in
      let m2 =
        register_write preset space p0 9 (a / 256 % 256) e1.memory (omega arith) (omega arith) in
      let m3 = register_write preset space p0 6 v e2.memory (omega arith) (omega arith) in
      (
        e4,
        rw (
          expect_ready_lem e,
          register_lem 8 (a % 256) e (omega arith) (omega arith),
          last,
          register_lem 9 (a / 256 % 256) e1 (omega arith) (omega arith),
          same,
          register_lem 6 v e2 (omega arith) (omega arith),
          register_lem 0 7 e3 (omega arith) (omega arith),
          expect_ready_lem e4,
        ),
        fuse_command preset space p0 a v e3.memory lo hi (rw (m3, m2, m1) (omega arith)) (rw m3),
      )
