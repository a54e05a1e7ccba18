-- ===== src/Provider/Write.antt =====
-- `write` of nvmserialupdi.py, which cuts the data into chunks and writes them in order.
use updi_programmer.Prelude.{
  ℕ, zero, suc, ◌+◌, ◌<◌, ◌≤◌, ◌≡◌, ◌⊎◌, inl, inr, refl, ap, sym, List, [], ◌∷◌, ◌++◌, arith, ltb,
  ltb→lt, ◌&&◌, false, Bool-cases, if◌then◌else◌,
}
use mathlib.Core.List.{append-nil}
use updi_programmer.Prelude.Lists.{
  take_of_length_le, drop_of_length_le, length, take, drop, take-append-drop, length-take,
  length-drop,
}
use updi_programmer.Exec.{Exec, ◌>>◌}
use updi_programmer.Exec.Triple.{for_each}
use updi_programmer.Provider.{Avr, Options, Utils, write, write_loop, write_chunk, is_paged}
use updi_programmer.Provider.Memory.{MemoryName, MemoryInfo, same_name}

-- `pieces` cut `bytes`, which begin at `a`, into consecutive chunks of `size`, the last one perhaps
-- shorter, and none of them empty.
pub data Tiles (size : ℕ) : ℕ → List ℕ → List (ℕ × List ℕ) → Type 0 where
  done : {a : ℕ} → Tiles size a [] []
  chunk :
      {a : ℕ} {bytes piece rest : List ℕ} {pieces : List (ℕ × List ℕ)}
      → bytes ≡ piece ++ rest
      → 0 < length piece
      → (length piece ≡ size) ⊎ ((length piece < size) × (rest ≡ []))
      → Tiles size (a + length piece) rest pieces
      → Tiles size a bytes ((a, piece) ∷ pieces)

module _ {S : Type 0} (avr : Avr S) where
  -- the chunks of the loop, written in order
  abbrev pub write_pieces : MemoryName → List (ℕ × List ℕ) → Exec S Unit
  write_pieces name = for_each (λ p. write_chunk avr name p.0 p.1)

  write_loop-Tiles :
      (fuel : ℕ) (name : MemoryName) (size a : ℕ) (bytes : List ℕ)
      → length bytes ≤ fuel
      → (0 < length bytes → 0 < size)
      → (pieces : List (ℕ × List ℕ)) × Tiles size a bytes pieces
        × (write_loop avr fuel name size a bytes ≡ write_pieces name pieces)
  unfolding write_loop for_each
  write_loop-Tiles fuel name size a [] f p = ([], done, refl)
  write_loop-Tiles zero name size a (b ∷ rest) f p = elim f [ ]
  write_loop-Tiles (suc fuel) name size a (b ∷ rest) f p =
      let bytes = b ∷ rest in
      let pos : 0 < size = p (omega arith) in
      let (pieces, tiles, same) =
        write_loop-Tiles fuel name size (a + size) (drop size bytes)
          (omega (arith, length-drop size bytes, pos)) (λ _. pos) in
      elim (Bool-cases (ltb (length bytes) size)) [
        | inl last ↦ (
          (a, bytes) ∷ [],
          chunk (sym (append-nil bytes)) (omega arith) (inr (ltb→lt (length bytes) size last, refl))
              done,
          rw (
            last,
            take_of_length_le (length rest) rest (omega arith),
            drop_of_length_le (length rest) rest (omega arith),
          ),
        )
        | inr full ↦
            let taken : length (take size bytes) ≡ size = ground (arith, length-take size bytes) in
            (
              (a, take size bytes) ∷ pieces,
              chunk (sym (take-append-drop size bytes)) (omega arith) (inl taken) (rw taken tiles),
              rw full
                  (ap (λ (m : Exec S Unit). write_chunk avr name a (take size bytes) >> m) same),
            )
      ]

  -- Outside the locked user row, with a page size above 0, `write` aligns the data and sends all of
  -- it to the driver, in consecutive chunks from the aligned address up: chunks of a page for the
  -- memories that are written by pages, and otherwise one chunk.
  pub write-Tiles :
      (utils : Utils) (options : Options) (info : MemoryInfo) (offset : ℕ) (bytes : List ℕ)
      → (same_name info.name MemoryName.user_row && options.user_row_locked_device) ≡ false
      → 0 < info.page_size
      → let (aligned, start) = utils.pagealign bytes offset info.page_size info.write_size in
        (pieces : List (ℕ × List ℕ)) × Tiles
          (if is_paged info.name then info.page_size else length aligned)
          (start + info.address)
          aligned
          pieces
        × (write avr utils options info offset bytes ≡ write_pieces info.name pieces)
  unfolding write
  write-Tiles utils options info offset bytes unlocked p =
      let (aligned, start) = utils.pagealign bytes offset info.page_size info.write_size in
      rw unlocked (elim (Bool-cases (is_paged info.name)) [
        | inl paged ↦ rw paged (
            write_loop-Tiles (length aligned) info.name info.page_size (start + info.address)
              aligned (omega arith) (λ _. p))
        | inr whole ↦ rw whole (
            write_loop-Tiles (length aligned) info.name (length aligned) (start + info.address)
              aligned (omega arith) (λ q. q))
      ])
