-- ===== src/Target/Transfer/Overlay.antt =====
-- What a write of readwrite.py makes of each byte of the target's flash.
use updi_programmer.Prelude.{
  ℕ, zero, suc, ◌+◌, ◌-◌, ◌*◌, ◌<◌, ◌≤◌, ◌≡◌, ◌∙◌, List, [], ◌∷◌, arith, leb, false, ◌==◌,
  Bool-cases, inl, inr, if◌then◌else◌,
}
use updi_programmer.Prelude.Lists.{length}
use updi_programmer.Exec.{ok}
use updi_programmer.Link.{Datalink}
use updi_programmer.ReadWrite.{write_data, write_data_words}
use updi_programmer.Target.Memory.{Preset, Memory, mem_read, mem_write, update}
use updi_programmer.Target.Device.{Core, store_all}
use updi_programmer.Target.Line.{Line, quiet}
use updi_programmer.Target.Link.{Speaks}
use updi_programmer.Target.Transfer.{IsBytes, write_data_lem}
use updi_programmer.Target.Transfer.RoundTrip.{InFlash, mem_read-mem_write_self}
use updi_programmer.Target.Transfer.Words.{write_data_words_lem}

-- the byte at index `i`, or else `other`
unfoldable pub byte_or : ℕ → List ℕ → ℕ → ℕ
byte_or other [] i = other
byte_or other (b ∷ bs) zero = b
byte_or other (b ∷ bs) (suc i) = byte_or other bs i

-- the byte that an address holds once `bs` lies at `a` over what was there
unfoldable pub overlaid : ℕ → List ℕ → (ℕ → ℕ) → ℕ → ℕ
overlaid a bs under j = if leb a j then byte_or (under j) bs (j - a) else under j

overlaid-step :
    (a b j : ℕ) (bs : List ℕ) (f g : ℕ → ℕ)
    → f j ≡ overlaid a (b ∷ []) g j
    → overlaid (a + 1) bs f j ≡ overlaid a (b ∷ bs) g j
unfolding overlaid byte_or
overlaid-step a b j bs f g h = grind arith

module _ (preset : Preset) where
  mem_write_lem :
      (a b : ℕ) (m : Memory)
      → InFlash preset a 1
      → mem_write preset a b m ≡ record m { flash = update m.flash (a - preset.flash_base) b }
  unfolding mem_write
  mem_write_lem a b m h = ground arith

  -- another address keeps its byte
  mem_read-update :
      (a b j : ℕ) (m : Memory)
      → InFlash preset a 1
      → (j == a) ≡ false
      → mem_read preset (record m { flash = update m.flash (a - preset.flash_base) b }) j
        ≡ mem_read preset m j
  unfolding mem_read
  mem_read-update a b j m h ne = ground arith

  overlaid-one : (a b j : ℕ) (f : ℕ → ℕ) → overlaid a (b ∷ []) f j ≡ (if j == a then b else f j)
  unfolding overlaid byte_or
  overlaid-one a b j f = grind arith

  mem_read-mem_write :
      (a b j : ℕ) (m : Memory)
      → InFlash preset a 1
      → mem_read preset (mem_write preset a b m) j ≡ overlaid a (b ∷ []) (mem_read preset m) j
  mem_read-mem_write a b j m h = elim (Bool-cases (j == a)) [
    | inl same ↦
        (let here : j ≡ a = ground arith in
          rw (overlaid-one a b j (mem_read preset m), same, here)
            (mem_read-mem_write_self preset a b m h))
    | inr other ↦
        rw (overlaid-one a b j (mem_read preset m), other, mem_write_lem a b m h)
          (mem_read-update a b j m h other)
  ]

  mem_read-store_all-overlaid :
      (a : ℕ) (bs : List ℕ) (m : Memory) (j : ℕ)
      → InFlash preset a (length bs)
      → mem_read preset (store_all preset a bs m) j ≡ overlaid a bs (mem_read preset m) j
  unfolding store_all overlaid byte_or
  mem_read-store_all-overlaid a [] m j h = ground arith
  mem_read-store_all-overlaid a (b ∷ bs) m j h =
      mem_read-store_all-overlaid (a + 1) bs (mem_write preset a b m) j (omega arith)
      ∙ overlaid-step a b j bs (mem_read preset (mem_write preset a b m)) (mem_read preset m)
          (mem_read-mem_write a b j m (omega arith))

module _ (preset : Preset) (space : ℕ) (dl : Datalink Line) (link : Speaks preset space dl) where
  -- Through a link that speaks to a quiet target with no repeat pending, `write_data` of any number of
  -- bytes to the flash, above the NVM registers and within the addresses that the link can express,
  -- returns and leaves the target quiet. Every address from the first one on that the bytes reach then
  -- reads as its byte, and every other address of the memory reads as it did before.
  pub write_data-overlaid :
      (a : ℕ) (bs : List ℕ) (e : Core)
      → e.repeat_next ≡ 0
      → IsBytes bs
      → a + length bs ≤ space
      → InFlash preset a (length bs)
      → (e' : Core) × (write_data dl a bs (quiet e) ≡ (ok tt, quiet e'))
        × (mem_read preset e'.memory ≡ overlaid a bs (mem_read preset e.memory))
  write_data-overlaid a bs e r v s h =
      let (ptr, written) = write_data_lem preset space dl link a bs e r v s in
      (
        record e { memory = store_all preset a bs e.memory; ptr = ptr; repeat_next = 0 },
        written,
        λ i j. mem_read-store_all-overlaid preset a bs e.memory j h i,
      )

  -- Through a link that speaks to a quiet target with no repeat pending, `write_data_words` of an even
  -- number of bytes, from 2 to 512, to the flash, above the NVM registers and within the addresses that
  -- the link can express, returns and leaves the target quiet. Every address from the first one on that
  -- the bytes reach then reads as its byte, and every other address of the memory reads as it did
  -- before.
  pub write_data_words-overlaid :
      (a words : ℕ) (bs : List ℕ) (e : Core)
      → e.repeat_next ≡ 0
      → IsBytes bs
      → length bs ≡ words * 2
      → 0 < words
      → words ≤ 256
      → a + length bs ≤ space
      → InFlash preset a (length bs)
      → (e' : Core) × (write_data_words dl a bs (quiet e) ≡ (ok tt, quiet e'))
        × (mem_read preset e'.memory ≡ overlaid a bs (mem_read preset e.memory))
  write_data_words-overlaid a words bs e r v n p q s h =
      let (e', written, stored, _) =
        write_data_words_lem preset space dl link a words bs e r v n p q s in
      (e', written, rw stored (λ i j. mem_read-store_all-overlaid preset a bs e.memory j h i))
