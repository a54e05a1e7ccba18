-- ===== src/Target/Link.antt =====
-- What the upper layers rely on when a data link talks to the target, as an interface that both
-- data links of link.py fill.
use updi_programmer.Prelude.{
  ℕ, suc, ◌+◌, ◌-◌, ◌*◌, ◌/◌, ◌%◌, ◌^◌, ◌<◌, ◌≤◌, ◌≡◌, List, [], ◌∷◌, arith,
}
use updi_programmer.Prelude.Lists.{length}
use updi_programmer.Exec.{ok}
use updi_programmer.Link.{Datalink, datalink16, datalink24}
use updi_programmer.Link.Base.{Exceptions}
use updi_programmer.Target.Memory.{Preset, mem_read, mem_write, read_range, update}
use updi_programmer.Target.Device.{Core, store_all, apply_stcs, accept_key, sib_bytes}
use updi_programmer.Target.Line.{Line, quiet}
use updi_programmer.Target.Line.Direct.{
  phy, repeat_lem, wide_ld_lem, wide_st_lem, wide_st_ptr_lem, narrow_ld_lem, narrow_st_lem,
  narrow_st_ptr_lem, wide_st16_lem, narrow_st16_lem, wide_ld16_lem, narrow_ld16_lem,
}
use updi_programmer.Target.Line.Words.{st_ptr_inc16_lem}
use updi_programmer.Target.Line.Block.{ld_ptr_inc_lem, ld_ptr_inc16_lem, st_ptr_inc_lem}
use updi_programmer.Target.Line.Control.{
  ldcs_lem, stcs_lem, key_lem, read_sib_lem, init_datalink_lem,
}

-- A link whose addresses wrap around at `space`.
pub record Speaks (preset : Preset) (space : ℕ) (dl : Datalink Line) : Type 0 where
  pub space_small : space ≤ 2 ^ 24
  pub ld_lem :
      (a : ℕ) (e : Core) → dl.ld a (quiet e) ≡ (ok (mem_read preset e.memory (a % space)), quiet e)
  pub st_lem :
      (a v : ℕ) (e : Core)
      → dl.st a v (quiet e)
        ≡ (ok tt, quiet (record e { memory = mem_write preset (a % space) (v % 256) e.memory }))
  pub st_ptr_lem :
      (a : ℕ) (e : Core) → dl.st_ptr a (quiet e) ≡ (ok tt, quiet (record e { ptr = a % space }))
  pub repeat_lem :
      (n : ℕ) (e : Core)
      → 0 < n
      → n < 257
      → dl.repeat n (quiet e) ≡ (ok tt, quiet (record e { repeat_next = n - 1 }))
  pub ld_ptr_inc_lem :
      (n : ℕ) (e : Core)
      → e.repeat_next + 1 ≡ n
      → n ≤ 2000
      → dl.ld_ptr_inc n (quiet e) ≡ (
        ok (read_range preset e.memory e.ptr n),
        quiet (record e { repeat_next = 0; ptr = (e.ptr + n) % 2 ^ 32 }),
      )
  pub st_ptr_inc_lem :
      (b : ℕ) (bs : List ℕ) (e : Core)
      → e.repeat_next ≡ length bs
      → e.ptr + suc (length bs) < 2 ^ 32
      → dl.st_ptr_inc (b ∷ bs) (quiet e) ≡ (
        ok tt,
        quiet (record e {
          memory = store_all preset e.ptr (b ∷ bs) e.memory;
          ptr = e.ptr + suc (length bs);
          repeat_next = 0;
        }),
      )
  pub st16_lem :
      (a v : ℕ) (e : Core)
      → dl.st16 a v (quiet e) ≡ (
        ok tt,
        quiet (record e {
          memory = store_all preset (a % space) ((v % 256) ∷ (v / 256 % 256) ∷ []) e.memory;
        }),
      )
  pub st_ptr_inc16_lem :
      (b c d : ℕ) (rest : List ℕ) (e : Core)
      → (e.repeat_next + 1) * 2 ≡ length (b ∷ c ∷ d ∷ rest)
      → e.ptr + length (b ∷ c ∷ d ∷ rest) < 2 ^ 32
      → dl.st_ptr_inc16 (b ∷ c ∷ d ∷ rest) (quiet e) ≡ (
        ok tt,
        quiet (record e {
          memory = store_all preset e.ptr (b ∷ c ∷ d ∷ rest) e.memory;
          ptr = e.ptr + length (b ∷ c ∷ d ∷ rest);
          repeat_next = 0;
          cs = update (update e.cs 2 0x88) 2 0x80;
        }),
      )
  pub ld16_lem :
      (a : ℕ) (e : Core)
      → dl.ld16 a (quiet e) ≡ (ok (read_range preset e.memory (a % space) 2), quiet e)
  pub ld_ptr_inc16_lem :
      (n : ℕ) (e : Core)
      → e.repeat_next + 1 ≡ n
      → n ≤ 1000
      → dl.ld_ptr_inc16 n (quiet e) ≡ (
        ok (read_range preset e.memory e.ptr (n * 2)),
        quiet (record e { repeat_next = 0; ptr = (e.ptr + n * 2) % 2 ^ 32 }),
      )
  pub ldcs_lem : (a : ℕ) (e : Core) → dl.ldcs a (quiet e) ≡ (ok (e.cs (a % 16)), quiet e)
  pub stcs_lem :
      (a v : ℕ) (e : Core) → dl.stcs a v (quiet e) ≡ (ok tt, quiet (apply_stcs (a % 16) v e))
  pub key_lem :
      (a b c d f g h i : ℕ) (e : Core)
      → let bytes = a ∷ b ∷ c ∷ d ∷ f ∷ g ∷ h ∷ i ∷ [] in
        dl.key 0 bytes (quiet e) ≡ (ok tt, quiet (accept_key bytes e))
  pub read_sib_lem :
      (e : Core) → dl.read_sib (quiet e) ≡ (ok (sib_bytes preset 32 preset.sib), quiet e)
  pub init_datalink_lem :
      (e : Core)
      → 0 < e.cs 0
      → dl.init_datalink (quiet e)
        ≡ (ok tt, quiet (record e { cs = update (update e.cs 3 0x08) 2 0x80 }))

module _ (exceptions : Exceptions) (preset : Preset) (baud : ℕ) where
  -- Over the line, the 24-bit data link speaks to the target with addresses modulo 2 ^ 24. The
  -- direct loads and stores of a byte and of a word read and write the memory at the address. The
  -- pointer is set; a repeat of 1 to 256 sets the counter. Loads through the pointer of as many
  -- bytes, or words, as the counter asks for, up to 2000 bytes, return the range. Stores through
  -- the pointer of as many bytes, or of as many words, at least two, write it below 2 ^ 32; those
  -- of words turn the ACKs off and on again. A load or store of the control and status space reads
  -- or writes the register, and a write that releases the reset has the target act on the keys. A
  -- key of 8 bytes is offered to the target, and `read_sib` returns 32 bytes of its SIB, zeros past
  -- its end. `init_datalink` sets CTRLB and CTRLA and returns where the status register is not 0.
  -- Each leaves the target quiet. `st_ptr_inc` of no byte, `st_ptr_inc16` of a single word, keys of
  -- another size and `init_datalink` on a status of 0 are left out.
  pub datalink24-Speaks : Speaks preset (2 ^ 24) (datalink24 exceptions (phy preset baud))
  datalink24-Speaks = record {
    space_small = omega arith;
    ld_lem = wide_ld_lem preset baud;
    st_lem = wide_st_lem preset baud;
    st16_lem = wide_st16_lem preset baud;
    ld16_lem = wide_ld16_lem preset baud;
    ld_ptr_inc16_lem = ld_ptr_inc16_lem preset baud;
    ldcs_lem = ldcs_lem preset baud;
    stcs_lem = stcs_lem preset baud;
    key_lem = key_lem preset baud;
    read_sib_lem = read_sib_lem preset baud;
    init_datalink_lem = init_datalink_lem preset baud exceptions;
    st_ptr_inc16_lem = st_ptr_inc16_lem preset baud;
    st_ptr_lem = wide_st_ptr_lem preset baud;
    repeat_lem = repeat_lem preset baud;
    ld_ptr_inc_lem = ld_ptr_inc_lem preset baud;
    st_ptr_inc_lem = st_ptr_inc_lem preset baud;
  }

  -- Over the line, the 16-bit data link speaks to the target with addresses modulo 2 ^ 16. The
  -- direct loads and stores of a byte and of a word read and write the memory at the address. The
  -- pointer is set; a repeat of 1 to 256 sets the counter. Loads through the pointer of as many
  -- bytes, or words, as the counter asks for, up to 2000 bytes, return the range. Stores through
  -- the pointer of as many bytes, or of as many words, at least two, write it below 2 ^ 32; those
  -- of words turn the ACKs off and on again. A load or store of the control and status space reads
  -- or writes the register, and a write that releases the reset has the target act on the keys. A
  -- key of 8 bytes is offered to the target, and `read_sib` returns 32 bytes of its SIB, zeros past
  -- its end. `init_datalink` sets CTRLB and CTRLA and returns where the status register is not 0.
  -- Each leaves the target quiet. `st_ptr_inc` of no byte, `st_ptr_inc16` of a single word, keys of
  -- another size and `init_datalink` on a status of 0 are left out.
  pub datalink16-Speaks : Speaks preset (2 ^ 16) (datalink16 exceptions (phy preset baud))
  datalink16-Speaks = record {
    space_small = omega arith;
    ld_lem = narrow_ld_lem preset baud;
    st_lem = narrow_st_lem preset baud;
    st16_lem = narrow_st16_lem preset baud;
    ld16_lem = narrow_ld16_lem preset baud;
    ld_ptr_inc16_lem = ld_ptr_inc16_lem preset baud;
    ldcs_lem = ldcs_lem preset baud;
    stcs_lem = stcs_lem preset baud;
    key_lem = key_lem preset baud;
    read_sib_lem = read_sib_lem preset baud;
    init_datalink_lem = init_datalink_lem preset baud exceptions;
    st_ptr_inc16_lem = st_ptr_inc16_lem preset baud;
    st_ptr_lem = narrow_st_ptr_lem preset baud;
    repeat_lem = repeat_lem preset baud;
    ld_ptr_inc_lem = ld_ptr_inc_lem preset baud;
    st_ptr_inc_lem = st_ptr_inc_lem preset baud;
  }
