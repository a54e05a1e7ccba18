-- ===== src/Target/Emulator/Direct.antt =====
-- The instructions of updi/updi_link.c with a fixed number of bytes, run on the emulator.
use updi_programmer.Prelude.{
  ℕ, ◌+◌, ◌-◌, ◌*◌, ◌/◌, ◌%◌, ◌^◌, ◌<◌, ◌≤◌, ◌≡◌, refl, Bool, true, false, [], ◌∷◌, arith, le→ltb,
}
use updi_programmer.Constants.{updi_key_nvm}
use updi_programmer.Port.Call.{done, fail_if}
use updi_programmer.Port.Link.{UpdiLink, ldcs, stcs, ld_byte, st_byte, st16, st_ptr}
use updi_programmer.Port.Link.Block.{repeat, key}
use updi_programmer.Target.Memory.{Preset, mem_read, mem_write, read_range}
use updi_programmer.Target.Device.{Core, store_all, apply_stcs, accept_key}
use updi_programmer.Target.Emulator.{Emu, emu_transport, feed_all, at_rest, reach}

module _ (preset : Preset) (wait : ℕ) (ack : Bool) (now : ℕ) where
  abbrev rest : Bool → Core → UpdiLink Emu
  rest wide e = at_rest wide wait ack e now

  wide_address :
      (a : ℕ) → a % 256 + 256 * (a / 256 % 256 + 256 * (a / 65536 % 256 + 256 * 0)) ≡ a % 2 ^ 24
  wide_address a = omega arith

  narrow_address : (a : ℕ) → a % 256 + 256 * (a / 256 % 256 + 256 * 0) ≡ a % 2 ^ 16
  narrow_address a = omega arith

  pub st_ptr_lem :
      (wide : Bool) (a : ℕ) (e : Core)
      → st_ptr (emu_transport preset) a (rest wide e)
        ≡ (done tt, rest wide (record e { ptr = a % reach wide }))
  unfolding st_ptr feed_all
  st_ptr_lem true a e = rw (← wide_address a)
  st_ptr_lem false a e = rw (← narrow_address a)

  pub ld_byte_lem :
      (wide : Bool) (a : ℕ) (e : Core)
      → ld_byte (emu_transport preset) a (rest wide e)
        ≡ (done (mem_read preset e.memory (a % reach wide)), rest wide e)
  unfolding ld_byte feed_all read_range fail_if
  ld_byte_lem true a e = rw (← wide_address a)
  ld_byte_lem false a e = rw (← narrow_address a)

  pub st_byte_lem :
      (wide : Bool) (a v : ℕ) (e : Core)
      → st_byte (emu_transport preset) a v (rest wide e)
        ≡ (done tt, rest wide (record e { memory = mem_write preset (a % reach wide) v e.memory }))
  unfolding st_byte feed_all
  st_byte_lem true a v e = rw (← wide_address a)
  st_byte_lem false a v e = rw (← narrow_address a)

  pub st16_lem :
      (wide : Bool) (a v : ℕ) (e : Core)
      → st16 (emu_transport preset) a v (rest wide e) ≡ (
        done tt,
        rest wide (record e {
          memory = store_all preset (a % reach wide) ((v % 256) ∷ (v / 256 % 256) ∷ []) e.memory;
        }),
      )
  unfolding st16 feed_all
  st16_lem true a v e = rw (← wide_address a)
  st16_lem false a v e = rw (← narrow_address a)

  pub repeat_lem :
      (wide : Bool) (n : ℕ) (e : Core)
      → 0 < n
      → n ≤ 256
      → repeat (emu_transport preset) n (rest wide e)
        ≡ (done tt, rest wide (record e { repeat_next = n - 1 }))
  unfolding repeat feed_all fail_if
  repeat_lem wide n e p q =
      let counter : (n - 1) % 256 ≡ n - 1 = omega arith in
      rw (le→ltb n 1 p, le→ltb 256 n q, counter)

  pub sys_status_lem :
      (wide : Bool) (e : Core)
      → ldcs (emu_transport preset) 0x0B (rest wide e) ≡ (done (e.cs 0x0B), rest wide e)
  unfolding ldcs feed_all
  sys_status_lem wide e = refl

  pub key_status_lem :
      (wide : Bool) (e : Core)
      → ldcs (emu_transport preset) 0x07 (rest wide e) ≡ (done (e.cs 0x07), rest wide e)
  unfolding ldcs feed_all
  key_status_lem wide e = refl

  pub stcs_reset_lem :
      (wide : Bool) (v : ℕ) (e : Core)
      → stcs (emu_transport preset) 0x08 v (rest wide e)
        ≡ (done tt, rest wide (apply_stcs 0x08 v e))
  unfolding stcs feed_all
  stcs_reset_lem wide v e = refl

  pub nvm_key_lem :
      (wide : Bool) (e : Core)
      → key (emu_transport preset) 0 updi_key_nvm (rest wide e)
        ≡ (done tt, rest wide (accept_key updi_key_nvm e))
  unfolding key feed_all accept_key
  nvm_key_lem wide e = refl
