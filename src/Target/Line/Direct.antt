-- ===== src/Target/Line/Direct.antt =====
-- The instructions of link.py with a fixed number of bytes, run on the line: each leaves the target
-- quiet, with the state that the instruction stands for.
use updi_programmer.Prelude.{
  ℕ, ◌+◌, ◌-◌, ◌*◌, ◌/◌, ◌%◌, ◌^◌, ◌<◌, ◌≡◌, [], ◌∷◌, arith, ltb, false, le→ltb,
}
use updi_programmer.Exec.{ok, ◌>>=◌, raise_if}
use updi_programmer.Phys.{Phys, send, receive, updi_physical}
use updi_programmer.Link.Base.{repeat}
use updi_programmer.Link.Wide
use updi_programmer.Link.Narrow
use updi_programmer.Target.Memory.{Preset, mem_read, mem_write, read_range}
use updi_programmer.Target.Device.{Core, store_all}
use updi_programmer.Target.Line.{Line, line_serial, quiet, emu_send}

module _ (preset : Preset) (baud : ℕ) where
  abbrev pub phy : Phys Line
  phy = updi_physical (line_serial preset) baud

  wide_address :
      (a : ℕ) → a % 256 + 256 * (a / 256 % 256 + 256 * (a / 65536 % 256 + 256 * 0)) ≡ a % 2 ^ 24
  wide_address a = omega arith

  narrow_address : (a : ℕ) → a % 256 + 256 * (a / 256 % 256 + 256 * 0) ≡ a % 2 ^ 16
  narrow_address a = omega arith

  pub wide_st_ptr_lem :
      (a : ℕ) (e : Core)
      → Wide.st_ptr phy a (quiet e) ≡ (ok tt, quiet (record e { ptr = a % 2 ^ 24 }))
  unfolding Wide.st_ptr send receive emu_send
  wide_st_ptr_lem a e = rw (← wide_address a)

  pub wide_ld_lem :
      (a : ℕ) (e : Core)
      → Wide.ld phy a (quiet e) ≡ (ok (mem_read preset e.memory (a % 2 ^ 24)), quiet e)
  unfolding Wide.ld send receive emu_send read_range ◌>>=◌
  wide_ld_lem a e = rw (← wide_address a)

  pub wide_st_lem :
      (a v : ℕ) (e : Core)
      → Wide.st phy a v (quiet e)
        ≡ (ok tt, quiet (record e { memory = mem_write preset (a % 2 ^ 24) (v % 256) e.memory }))
  unfolding Wide.st send receive emu_send
  wide_st_lem a v e = rw (← wide_address a)

  pub wide_ld16_lem :
      (a : ℕ) (e : Core)
      → Wide.ld16 phy a (quiet e) ≡ (ok (read_range preset e.memory (a % 2 ^ 24) 2), quiet e)
  unfolding Wide.ld16 send receive emu_send read_range
  wide_ld16_lem a e = rw (← wide_address a)

  pub wide_st16_lem :
      (a v : ℕ) (e : Core)
      → Wide.st16 phy a v (quiet e) ≡ (
        ok tt,
        quiet (record e {
          memory = store_all preset (a % 2 ^ 24) ((v % 256) ∷ (v / 256 % 256) ∷ []) e.memory;
        }),
      )
  unfolding Wide.st16 send receive emu_send
  wide_st16_lem a v e = rw (← wide_address a)

  pub narrow_st_ptr_lem :
      (a : ℕ) (e : Core)
      → Narrow.st_ptr phy a (quiet e) ≡ (ok tt, quiet (record e { ptr = a % 2 ^ 16 }))
  unfolding Narrow.st_ptr send receive emu_send
  narrow_st_ptr_lem a e = rw (← narrow_address a)

  pub narrow_ld_lem :
      (a : ℕ) (e : Core)
      → Narrow.ld phy a (quiet e) ≡ (ok (mem_read preset e.memory (a % 2 ^ 16)), quiet e)
  unfolding Narrow.ld send receive emu_send read_range ◌>>=◌
  narrow_ld_lem a e = rw (← narrow_address a)

  pub narrow_st_lem :
      (a v : ℕ) (e : Core)
      → Narrow.st phy a v (quiet e)
        ≡ (ok tt, quiet (record e { memory = mem_write preset (a % 2 ^ 16) (v % 256) e.memory }))
  unfolding Narrow.st send receive emu_send
  narrow_st_lem a v e = rw (← narrow_address a)

  pub narrow_ld16_lem :
      (a : ℕ) (e : Core)
      → Narrow.ld16 phy a (quiet e) ≡ (ok (read_range preset e.memory (a % 2 ^ 16) 2), quiet e)
  unfolding Narrow.ld16 send receive emu_send read_range
  narrow_ld16_lem a e = rw (← narrow_address a)

  pub narrow_st16_lem :
      (a v : ℕ) (e : Core)
      → Narrow.st16 phy a v (quiet e) ≡ (
        ok tt,
        quiet (record e {
          memory = store_all preset (a % 2 ^ 16) ((v % 256) ∷ (v / 256 % 256) ∷ []) e.memory;
        }),
      )
  unfolding Narrow.st16 send receive emu_send
  narrow_st16_lem a v e = rw (← narrow_address a)

  -- The target holds the number of repetitions after the first.
  pub repeat_lem :
      (n : ℕ) (e : Core)
      → 0 < n
      → n < 257
      → repeat phy n (quiet e) ≡ (ok tt, quiet (record e { repeat_next = n - 1 }))
  unfolding repeat send emu_send raise_if
  repeat_lem n e p q =
      let small : ltb 256 (n - 1) ≡ false = le→ltb 256 (n - 1) (omega arith) in
      let counter : (n + 255) % 256 ≡ n - 1 = omega arith in rw (small, counter)
