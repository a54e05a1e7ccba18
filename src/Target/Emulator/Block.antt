-- ===== src/Target/Emulator/Block.antt =====
-- The block transfers of updi/updi_link.c, run on the emulator.
use updi_programmer.Prelude.{
  ℕ, suc, ◌+◌, ◌*◌, ◌%◌, ◌^◌, ◌<◌, ◌≤◌, ◌≡◌, Bool, true, List, [], ◌∷◌, arith, ◌==◌,
}
use updi_programmer.Prelude.Lists.{length, take_of_length_le, drop_of_length_le}
use updi_programmer.Port.Call.{done, fail_if}
use updi_programmer.Port.Link.{UpdiLink, stcs, enable_ack, disable_ack, set_ack, send_raw}
use updi_programmer.Port.Link.Block.{ld_ptr_inc, st_each, st_ptr_inc, st_ptr_inc16_block}
use updi_programmer.Target.Memory.{Preset, mem_write, read_range, update}
use updi_programmer.Target.Device.{Core, Phase, store_all, apply_stcs}
use updi_programmer.Target.Line.Block.{
  rx_push-append, block_phase, block_phase-suc, length-read_range,
}
use updi_programmer.Target.Line.Words.{word_phase, word_phase-suc}
use updi_programmer.Target.Emulator.{Emu, emu, emu_transport, feed_all, at_rest}

module _ (preset : Preset) (wait : ℕ) (ack : Bool) (now : ℕ) (wide : Bool) where
  abbrev rest : Core → UpdiLink Emu
  rest e = at_rest wide wait ack e now

  abbrev inside : Core → Phase → UpdiLink Emu
  inside e phase = record (rest e) { world = emu e phase [] now }

  pub ld_ptr_inc_lem :
      (n : ℕ) (e : Core)
      → e.repeat_next + 1 ≡ n
      → n ≤ 2000
      → ld_ptr_inc (emu_transport preset) n (rest e) ≡ (
        done (read_range preset e.memory e.ptr n),
        rest (record e { repeat_next = 0; ptr = (e.ptr + n) % 2 ^ 32 }),
      )
  unfolding ld_ptr_inc feed_all fail_if
  ld_ptr_inc_lem n e r h =
      let count : (e.repeat_next + 1) * 1 ≡ n = omega arith in
      let xs = read_range preset e.memory e.ptr n in
      let full : length xs ≡ n = length-read_range preset 0 n e.ptr e in
      let same : (length xs == n) ≡ true = ground arith in
      rw (
        count,
        rx_push-append [] xs (omega arith),
        take_of_length_le n xs (omega arith),
        drop_of_length_le n xs (omega arith),
        same,
      )

  st_each_lem :
      (bs : List ℕ) (e : Core)
      → e.ptr + length bs < 2 ^ 32
      → st_each (emu_transport preset) bs (inside e (block_phase (length bs))) ≡ (
        done tt,
        rest (record e { memory = store_all preset e.ptr bs e.memory; ptr = e.ptr + length bs }),
      )
  unfolding st_each feed_all store_all
  st_each_lem [] e h = let z : e.ptr + 0 ≡ e.ptr = omega arith in rw z
  st_each_lem (b ∷ bs) e h =
      let next : (e.ptr + 1) % 2 ^ 32 ≡ e.ptr + 1 = omega arith in
      let total : e.ptr + 1 + length bs ≡ e.ptr + suc (length bs) = omega arith in
      rw (block_phase-suc (length bs), next, ← total)
        (st_each_lem bs (record e { memory = mem_write preset e.ptr b e.memory; ptr = e.ptr + 1 })
          (omega arith))

  pub st_ptr_inc_lem :
      (b : ℕ) (bs : List ℕ) (e : Core)
      → e.repeat_next ≡ length bs
      → e.ptr + suc (length bs) < 2 ^ 32
      → st_ptr_inc (emu_transport preset) (b ∷ bs) (rest e) ≡ (
        done tt,
        rest (record e {
          memory = store_all preset e.ptr (b ∷ bs) e.memory;
          ptr = e.ptr + suc (length bs);
          repeat_next = 0;
        }),
      )
  unfolding st_ptr_inc feed_all store_all
  st_ptr_inc_lem b bs e r h =
      let count : e.repeat_next + 1 ≡ suc (length bs) = omega arith in
      let next : (e.ptr + 1) % 2 ^ 32 ≡ e.ptr + 1 = omega arith in
      let total : e.ptr + 1 + length bs ≡ e.ptr + suc (length bs) = omega arith in
      rw (count, block_phase-suc (length bs), next, ← total)
        (st_each_lem bs
          (record e {
            memory = mem_write preset e.ptr b e.memory;
            ptr = e.ptr + 1;
            repeat_next = 0;
          })
          (omega arith))

  feed_words :
      (bs : List ℕ) (e : Core)
      → e.ptr + length bs < 2 ^ 32
      → feed_all preset bs (emu e (word_phase (length bs)) [] now)
        ≡ emu
            (record e { memory = store_all preset e.ptr bs e.memory; ptr = e.ptr + length bs })
            Phase.idle
            []
            now
  unfolding feed_all store_all
  feed_words [] e h = let z : e.ptr + 0 ≡ e.ptr = omega arith in rw z
  feed_words (b ∷ bs) e h =
      let next : (e.ptr + 1) % 2 ^ 32 ≡ e.ptr + 1 = omega arith in
      let total : e.ptr + 1 + length bs ≡ e.ptr + suc (length bs) = omega arith in
      rw (word_phase-suc (length bs), next, ← total)
        (feed_words bs (record e { memory = mem_write preset e.ptr b e.memory; ptr = e.ptr + 1 })
          (omega arith))

  pub st_ptr_inc16_block_lem :
      (bs : List ℕ) (k : ℕ) (e : Core)
      → length bs ≡ suc k
      → (e.repeat_next + 1) * 2 ≡ length bs
      → e.ptr + length bs < 2 ^ 32
      → st_ptr_inc16_block (emu_transport preset) bs (rest e) ≡ (
        done tt,
        at_rest wide wait true
            (record e {
              memory = store_all preset e.ptr bs e.memory;
              ptr = e.ptr + length bs;
              repeat_next = 0;
              cs = update (update e.cs 2 0x88) 2 0x80;
            })
            now,
      )
  unfolding st_ptr_inc16_block disable_ack enable_ack stcs set_ack send_raw feed_all apply_stcs
  st_ptr_inc16_block_lem bs k e pos r h =
      let phase : word_phase (length bs) ≡ Phase.stinc16 (length bs) = rw pos in
      let stored = feed_words bs (record e { repeat_next = 0; cs = update e.cs 2 0x88 }) h in
      rw (r, rw phase at stored)
