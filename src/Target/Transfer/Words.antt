-- ===== src/Target/Transfer/Words.antt =====
-- Writes by words on the line, which the flash wants.
use updi_programmer.Prelude.{
  ℕ, ◌+◌, ◌-◌, ◌*◌, ◌/◌, ◌%◌, ◌^◌, ◌<◌, ◌≤◌, ◌≡◌, refl, List, [], ◌∷◌, arith, le→ltb,
}
use native.Mathlib.Nat.{mod-eq_of_lt}
use updi_programmer.Prelude.Lists.{length}
use updi_programmer.Exec.{ok, raise_if}
use updi_programmer.Link.{Datalink}
use updi_programmer.ReadWrite.{write_data_words, write_block_words}
use updi_programmer.Target.Memory.{Preset, update}
use updi_programmer.Target.Device.{Core, store_all}
use updi_programmer.Target.Line.{Line, quiet}
use updi_programmer.Target.Link.{Speaks}
use updi_programmer.Target.Transfer.{IsBytes}

module _ (preset : Preset) (space : ℕ) (dl : Datalink Line) (link : Speaks preset space dl) where
  -- a write by words stores the bytes one by one, from the address up
  pub write_data_words_lem :
      (a words : ℕ) (bs : List ℕ) (e : Core)
      → e.repeat_next ≡ 0
      → IsBytes bs
      → length bs ≡ words * 2
      → 0 < words
      → words ≤ 256
      → a + length bs ≤ space
      → (e' : Core) × (write_data_words dl a bs (quiet e) ≡ (ok tt, quiet e'))
        × (e'.memory ≡ store_all preset a bs e.memory)
        × (e'.repeat_next ≡ 0)
  unfolding write_data_words write_block_words raise_if
  write_data_words_lem a words [] e r v n p q s = absurd (omega arith)
  write_data_words_lem a words (b ∷ []) e r v n p q s = absurd (omega arith)
  write_data_words_lem a words (b ∷ c ∷ []) e r v n p q s =
      let inside : a % space ≡ a = mod-eq_of_lt (omega arith) in
      let low : (b + c * 256) % 256 ≡ b = omega arith in
      let high : (b + c * 256) / 256 % 256 ≡ c = omega arith in
      (
        record e { memory = store_all preset a (b ∷ c ∷ []) e.memory },
        rw (link.st16_lem a (b + c * 256) e, inside, low, high),
        refl,
        r,
      )
  write_data_words_lem a words (b ∷ c ∷ d ∷ rest) e r v n p q s =
      let bs = b ∷ c ∷ d ∷ rest in
      let small : space ≤ 2 ^ 24 = link.space_small in
      let inside : a % space ≡ a = mod-eq_of_lt (omega arith) in
      let half : length bs / 2 ≡ words = omega arith in
      (
        record e {
          memory = store_all preset a bs e.memory;
          ptr = a + length bs;
          repeat_next = 0;
          cs = update (update e.cs 2 0x88) 2 0x80;
        },
        rw (
          le→ltb 512 (length bs) (omega arith),
          link.st_ptr_lem a e,
          inside,
          half,
          link.repeat_lem words (record e { ptr = a }) p (omega arith),
          link.st_ptr_inc16_lem b c d rest (record e { ptr = a; repeat_next = words - 1 })
              (omega arith) (omega arith),
        ),
        refl,
        refl,
      )
