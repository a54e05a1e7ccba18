-- ===== src/Target/Emulator/Words.antt =====
-- The writes by words of updi/updi_link.c, run on the emulator.
use updi_programmer.Prelude.{
  ℕ, suc, ◌+◌, ◌-◌, ◌*◌, ◌/◌, ◌%◌, ◌<◌, ◌≤◌, ◌≡◌, refl, Bool, true, List, [], ◌∷◌, arith, ◌==◌,
  le→ltb,
}
use updi_programmer.Prelude.Lists.{length}
use updi_programmer.Port.Call.{done, fail_if}
use updi_programmer.Port.Link.Data.{write_data_words, write_block_words}
use updi_programmer.Target.Memory.{Preset, update}
use updi_programmer.Target.Device.{Core, store_all}
use updi_programmer.Target.Transfer.{IsBytes}
use updi_programmer.Target.Emulator.{emu_transport, at_rest, reach}
use updi_programmer.Target.Emulator.Direct.{st_ptr_lem, st16_lem, repeat_lem}
use updi_programmer.Target.Emulator.Block.{st_ptr_inc16_block_lem}
use updi_programmer.Target.Emulator.Data.{reach_small, inside}

module _ (preset : Preset) (wait : ℕ) (now : ℕ) (wide : Bool) where
  -- On the emulator with no repeat pending, a write by words of an even number of bytes, from 2 to
  -- 512 and within the addresses that the link can express, returns and leaves the bytes in the memory
  -- from the address up, in order, with no repeat pending.
  pub port_write_data_words_lem :
      (ack : Bool) (a words : ℕ) (bs : List ℕ) (e : Core)
      → e.repeat_next ≡ 0
      → IsBytes bs
      → length bs ≡ words * 2
      → 0 < words
      → words ≤ 256
      → a + length bs ≤ reach wide
      → (e' : Core) × (ack' : Bool) × (write_data_words
            (emu_transport preset)
            a
            bs
            (at_rest wide wait ack e now)
          ≡ (done tt, at_rest wide wait ack' e' now))
        × (e'.memory ≡ store_all preset a bs e.memory)
        × (e'.repeat_next ≡ 0)
  unfolding write_data_words write_block_words fail_if
  port_write_data_words_lem ack a words [] e r v n p q s = absurd (omega arith)
  port_write_data_words_lem ack a words (b ∷ []) e r v n p q s = absurd (omega arith)
  port_write_data_words_lem ack a words (b ∷ c ∷ []) e r v n p q s =
      let low : (b + c * 256) % 256 ≡ b = omega arith in
      let high : (b + c * 256) / 256 % 256 ≡ c = omega arith in
      (
        record e { memory = store_all preset a (b ∷ c ∷ []) e.memory },
        ack,
        rw (
          st16_lem preset wait ack now wide a (b + c * 256) e,
          inside wide a (omega arith),
          low,
          high,
        ),
        refl,
        r,
      )
  port_write_data_words_lem ack a words (b ∷ c ∷ d ∷ rest) e r v n p q s =
      let bs = b ∷ c ∷ d ∷ rest in
      let small = reach_small wide in
      let half : length bs / 2 ≡ words = omega arith in
      let even : (length bs % 2 == 0) ≡ true = ground arith in
      let e1 = record e { ptr = a; repeat_next = words - 1 } in
      (
        record e {
          memory = store_all preset a bs e.memory;
          ptr = a + length bs;
          repeat_next = 0;
          cs = update (update e.cs 2 0x88) 2 0x80;
        },
        true,
        rw (
          even,
          le→ltb 512 (length bs) (omega arith),
          st_ptr_lem preset wait ack now wide a e,
          inside wide a (omega arith),
          half,
          repeat_lem preset wait ack now wide words (record e { ptr = a }) p q,
          st_ptr_inc16_block_lem preset wait ack now wide bs (suc (suc (length rest))) e1 refl
              (omega arith) (omega arith),
        ),
        refl,
        refl,
      )
