-- ===== src/Target/Transfer/Frame.antt =====
-- What a write to the target's flash leaves alone, and reads of ranges in parts.
use updi_programmer.Prelude.{
  ℕ, zero, suc, ◌+◌, ◌%◌, ◌^◌, ◌<◌, ◌≤◌, ◌≡◌, refl, ap, ◌∙◌, List, [], ◌∷◌, ◌++◌, arith,
}
use updi_programmer.Prelude.Lists.{length}
use updi_programmer.Target.Memory.{Preset, Memory, mem_read, mem_write, read_range}
use updi_programmer.Target.Device.{store_all}
use updi_programmer.Target.Transfer.{store_all-append}
use updi_programmer.Target.Transfer.RoundTrip.{InFlash, mem_read-store_all, read_range-store_all}

module _ (preset : Preset) where
  mem_write-flash :
      (a b : ℕ) (m m' : Memory)
      → InFlash preset a 1
      → m.flash ≡ m'.flash
      → (mem_write preset a b m).flash ≡ (mem_write preset a b m').flash
  unfolding mem_write
  mem_write-flash a b m m' h e = ground arith

  -- a store to the flash sees only the flash
  pub store_all-flash :
      (a : ℕ) (bs : List ℕ) (m m' : Memory)
      → InFlash preset a (length bs)
      → m.flash ≡ m'.flash
      → (store_all preset a bs m).flash ≡ (store_all preset a bs m').flash
  unfolding store_all
  store_all-flash a [] m m' h e = e
  store_all-flash a (b ∷ bs) m m' h e =
      store_all-flash (a + 1) bs (mem_write preset a b m) (mem_write preset a b m') (omega arith)
        (mem_write-flash a b m m' (omega arith) e)

  pub mem_read-flash :
      (j : ℕ) (m m' : Memory)
      → InFlash preset j 1
      → m.flash ≡ m'.flash
      → mem_read preset m j ≡ mem_read preset m' j
  unfolding mem_read
  mem_read-flash j m m' h e = ground arith

  mem_read-mem_write_above :
      (a j b : ℕ) (m : Memory)
      → InFlash preset a 1
      → InFlash preset j 1
      → a < j
      → mem_read preset (mem_write preset a b m) j ≡ mem_read preset m j
  unfolding mem_read mem_write
  mem_read-mem_write_above a j b m h k lt = ground arith

  -- a store leaves what lies above it alone
  pub mem_read-store_all_above :
      (a j : ℕ) (bs : List ℕ) (m : Memory)
      → InFlash preset a (length bs)
      → InFlash preset j 1
      → a + length bs ≤ j
      → mem_read preset (store_all preset a bs m) j ≡ mem_read preset m j
  unfolding store_all
  mem_read-store_all_above a j [] m h k le = refl
  mem_read-store_all_above a j (b ∷ bs) m h k le =
      mem_read-store_all_above (a + 1) j bs (mem_write preset a b m) (omega arith) k (omega arith)
      ∙ mem_read-mem_write_above a j b m (omega arith) k (omega arith)

  -- ranges on which the bytes agree
  pub read_range-ext :
      (a n : ℕ) (m m' : Memory)
      → a + n < 2 ^ 32
      → ((j : ℕ) → a ≤ j → j < a + n → mem_read preset m j ≡ mem_read preset m' j)
      → read_range preset m a n ≡ read_range preset m' a n
  unfolding read_range
  read_range-ext a zero m m' b same = refl
  read_range-ext a (suc n) m m' b same =
      let next : (a + 1) % 2 ^ 32 ≡ a + 1 = omega arith in
      rw (next, same a (omega arith) (omega arith))
        (ap (λ (l : List ℕ). mem_read preset m' a ∷ l)
          (read_range-ext (a + 1) n m m' (omega arith)
            (λ j p q. same j (omega arith) (omega arith))))

  pub read_range-split :
      (a k n : ℕ) (m : Memory)
      → a + (k + n) < 2 ^ 32
      → read_range preset m a (k + n) ≡ read_range preset m a k ++ read_range preset m (a + k) n
  unfolding read_range
  read_range-split a zero n m b =
      let z : a + 0 ≡ a = omega arith in let y : 0 + n ≡ n = omega arith in rw (z, y)
  read_range-split a (suc k) n m b =
      let next : (a + 1) % 2 ^ 32 ≡ a + 1 = omega arith in
      let z : a + suc k ≡ a + 1 + k = omega arith in
      let y : suc k + n ≡ suc (k + n) = omega arith in
      rw (y, z, next)
        (ap (λ (l : List ℕ). mem_read preset m a ∷ l)
          (read_range-split (a + 1) k n m (omega arith)))

  -- the first part of what was written is read back
  pub read_range-store_all_prefix :
      (a : ℕ) (xs ys : List ℕ) (m : Memory)
      → InFlash preset a (length xs + length ys)
      → read_range preset (store_all preset a (xs ++ ys) m) a (length xs) ≡ xs
  read_range-store_all_prefix a xs ys m h = rw (store_all-append preset a xs ys m) (
      read_range-ext a (length xs) (store_all preset (a + length xs) ys (store_all preset a xs m))
        (store_all preset a xs m) (omega arith)
        (λ j p q.
          mem_read-store_all preset (a + length xs) j ys (store_all preset a xs m) (omega arith)
            (omega arith) q)
      ∙ read_range-store_all preset a xs m (omega arith))
