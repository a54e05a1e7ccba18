-- ===== src/Target/Transfer/RoundTrip.antt =====
-- What is written to the target's flash by readwrite.py is what readwrite.py reads back.
use updi_programmer.Prelude.{ℕ, ◌+◌, ◌%◌, ◌^◌, ◌<◌, ◌≤◌, ◌≡◌, refl, ap, ◌∙◌, List, [], ◌∷◌, arith}
use updi_programmer.Prelude.Lists.{length}
use updi_programmer.Exec.{ok}
use updi_programmer.Link.{Datalink}
use updi_programmer.ReadWrite.{read_data, write_data}
use updi_programmer.Target.Memory.{Preset, Memory, mem_read, mem_write, read_range}
use updi_programmer.Target.Device.{Core, store_all}
use updi_programmer.Target.Line.{Line, quiet}
use updi_programmer.Target.Link.{Speaks}
use updi_programmer.Target.Transfer.{IsBytes, read_data_lem, write_data_lem}

-- The range of `n` bytes at `a` lies in the flash, which lies above the NVM controller.
pub record InFlash (preset : Preset) (a n : ℕ) : Type 0 where
  pub above : preset.flash_base ≤ a
  pub below : a + n ≤ preset.flash_base + 0x10000
  pub small : preset.flash_base < 2 ^ 24
  pub controller : preset.nvmctrl_base + preset.status_offset < preset.flash_base

module _ (preset : Preset) where
  -- a write to the flash is read back
  pub mem_read-mem_write_self :
      (a b : ℕ) (m : Memory) → InFlash preset a 1 → mem_read preset (mem_write preset a b m) a ≡ b
  unfolding mem_read mem_write
  mem_read-mem_write_self a b m h = ground arith

  mem_read-mem_write_ne :
      (a j b : ℕ) (m : Memory)
      → InFlash preset a 1
      → InFlash preset j 1
      → j < a
      → mem_read preset (mem_write preset a b m) j ≡ mem_read preset m j
  unfolding mem_read mem_write
  mem_read-mem_write_ne a j b m h k lt = ground arith

  pub mem_read-store_all :
      (a j : ℕ) (bs : List ℕ) (m : Memory)
      → InFlash preset a (length bs)
      → InFlash preset j 1
      → j < a
      → mem_read preset (store_all preset a bs m) j ≡ mem_read preset m j
  unfolding store_all
  mem_read-store_all a j [] m h k lt = refl
  mem_read-store_all a j (b ∷ bs) m h k lt =
      mem_read-store_all (a + 1) j bs (mem_write preset a b m) (omega arith) k (omega arith)
      ∙ mem_read-mem_write_ne a j b m (omega arith) k lt

  pub read_range-store_all :
      (a : ℕ) (bs : List ℕ) (m : Memory)
      → InFlash preset a (length bs)
      → read_range preset (store_all preset a bs m) a (length bs) ≡ bs
  unfolding store_all read_range
  read_range-store_all a [] m h = refl
  read_range-store_all a (b ∷ bs) m h =
      let next : (a + 1) % 2 ^ 32 ≡ a + 1 = omega arith in
      rw
        (
          next,
          mem_read-store_all (a + 1) a bs (mem_write preset a b m) (omega arith) (omega arith)
              (omega arith),
          mem_read-mem_write_self a b m (omega arith),
        )
        (ap (λ (l : List ℕ). b ∷ l)
          (read_range-store_all (a + 1) bs (mem_write preset a b m) (omega arith)))

module _ (preset : Preset) (space : ℕ) (dl : Datalink Line) (link : Speaks preset space dl) where
  -- Through a link that speaks to a quiet target with no repeat pending, from 1 to 256 bytes that are
  -- written to the flash, above the NVM registers and within the addresses that the link can express,
  -- are read back by `read_data` as they were written.
  pub read_data-write_data :
      (a : ℕ) (bs : List ℕ) (e : Core)
      → e.repeat_next ≡ 0
      → IsBytes bs
      → 0 < length bs
      → length bs ≤ 256
      → a + length bs ≤ space
      → InFlash preset a (length bs)
      → (read_data dl a (length bs) (write_data dl a bs (quiet e)).1).0 ≡ ok bs
  read_data-write_data a bs e r v p q s h =
      let (ptr, written) = write_data_lem preset space dl link a bs e r v s in
      rw
        (
          written,
          read_data_lem preset space dl link a (length bs)
              (record e { memory = store_all preset a bs e.memory; ptr = ptr; repeat_next = 0 })
              refl p q (omega arith),
        )
        (ap ok (read_range-store_all preset a bs e.memory h))
