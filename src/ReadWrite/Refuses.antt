-- ===== src/ReadWrite/Refuses.antt =====
-- The bounds of readwrite.py and link.py: what is too long for one transfer is refused before
-- anything is sent.
use updi_programmer.Prelude.{
  ℕ, ◌+◌, ◌-◌, ◌%◌, ◌<◌, ◌≤◌, ◌≡◌, refl, List, [], ◌∷◌, arith, lt→ltb, le→ltb,
}
use updi_programmer.Prelude.Lists.{length}
use updi_programmer.Exec.{err, protocol_error, raise_if}
use updi_programmer.Phys.{Phys}
use updi_programmer.Link.{Datalink}
use updi_programmer.Link.Base.{repeat}
use updi_programmer.ReadWrite.{read_data, read_data_words, write_data_words, write_block_words}

module _ {S : Type 0} (dl : Datalink S) (s : S) where
  pub write_data_words_refused :
      (a : ℕ) (bytes : List ℕ)
      → 512 < length bytes
      → write_data_words dl a bytes s ≡ (err protocol_error, s)
  unfolding write_data_words write_block_words raise_if
  write_data_words_refused a [] h = absurd (omega arith)
  write_data_words_refused a (b ∷ []) h = absurd (omega arith)
  write_data_words_refused a (b ∷ c ∷ []) h = absurd (omega arith)
  write_data_words_refused a (b ∷ c ∷ d ∷ rest) h = rw (lt→ltb 512 (length (b ∷ c ∷ d ∷ rest)) h)

  pub read_data_refused : (a n : ℕ) → 256 < n → read_data dl a n s ≡ (err protocol_error, s)
  unfolding read_data raise_if
  read_data_refused a n h = rw (lt→ltb 256 n h)

  pub read_data_words_refused :
      (a w : ℕ) → 128 < w → read_data_words dl a w s ≡ (err protocol_error, s)
  unfolding read_data_words raise_if
  read_data_words_refused a w h = rw (lt→ltb 128 w h)

module _ {S : Type 0} (phy : Phys S) (s : S) where
  -- For a count `n` from 1 to 256, `repeat` sends the count less one; a count `m` of 258 or more it
  -- refuses with nothing sent. A count of 257 passes the check and does what a count of 1 does, and a
  -- count of 0 does what one of 256 does.
  pub repeat_cases :
      (n m : ℕ)
      → 0 < n
      → n ≤ 256
      → 257 < m
      → (repeat phy n s ≡ phy.send (0x55 ∷ 0xA0 ∷ (n - 1) ∷ []) s)
        × (repeat phy m s ≡ (err protocol_error, s))
        × (repeat phy 257 s ≡ repeat phy 1 s)
        × (repeat phy 0 s ≡ repeat phy 256 s)
  unfolding repeat raise_if
  repeat_cases n m p q h =
      let counter : (n + 255) % 256 ≡ n - 1 = omega arith in
      (
        rw (le→ltb 256 (n - 1) (omega arith), counter),
        rw (lt→ltb 256 (m - 1) (omega arith)),
        refl,
        refl,
      )
