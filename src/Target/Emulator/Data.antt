-- ===== src/Target/Emulator/Data.antt =====
-- The reads and writes of whole ranges of updi/updi_link.c, run on the emulator.
use updi_programmer.Prelude.{
  ℕ, zero, suc, ◌+◌, ◌-◌, ◌%◌, ◌^◌, ◌<◌, ◌≤◌, ◌≡◌, refl, ◌∙◌, Bool, true, false, List, [], ◌∷◌,
  arith, ltb, if◌then◌else◌, le→ltb, Bool-cases, inl, inr,
}
use native.Mathlib.Nat.{mod-eq_of_lt}
use updi_programmer.Prelude.Lists.{length, take, drop, length-take, length-drop}
use updi_programmer.Port.Call.{done, fail_if}
use updi_programmer.Port.Link.Block.{st_ptr_inc}
use updi_programmer.Port.Link.Data.{read_data, write_data, write_chunks}
use updi_programmer.Target.Memory.{Preset, mem_write, read_range}
use updi_programmer.Target.Device.{Core, store_all}
use updi_programmer.Target.Transfer.{store_all-chunks}
use updi_programmer.Target.Emulator.{emu_transport, at_rest, reach}
use updi_programmer.Target.Emulator.Direct.{st_ptr_lem, st_byte_lem, repeat_lem}
use updi_programmer.Target.Emulator.Block.{ld_ptr_inc_lem, st_ptr_inc_lem}

-- the size of a chunk
pub chunk_fits :
    (n : ℕ) → 0 < n → let k = if ltb 256 n then 256 else n in (0 < k) × (k ≤ 256) × (k ≤ n)
chunk_fits n h = ground arith

pub reach_small : (wide : Bool) → reach wide ≤ 2 ^ 24
reach_small true = omega arith
reach_small false = omega arith

pub inside : (wide : Bool) (a : ℕ) → a < reach wide → a % reach wide ≡ a
inside wide a h = mod-eq_of_lt h

module _ (preset : Preset) (wait : ℕ) (now : ℕ) (wide : Bool) where
  -- On the emulator with no repeat pending, a read of 1 to 256 bytes from an address that the link
  -- can express returns the bytes of the range, and leaves the memory alone.
  pub port_read_data_lem :
      (ack : Bool) (a n : ℕ) (e : Core)
      → e.repeat_next ≡ 0
      → 0 < n
      → n ≤ 256
      → a < reach wide
      → read_data (emu_transport preset) a n (at_rest wide wait ack e now) ≡ (
        done (read_range preset e.memory a n),
        at_rest wide wait ack (record e { repeat_next = 0; ptr = (a + n) % 2 ^ 32 }) now,
      )
  unfolding read_data fail_if
  port_read_data_lem ack a n e r p q s = elim (Bool-cases (ltb 1 n)) [
    | inl more ↦
        rw
          (
            le→ltb 256 n q,
            st_ptr_lem preset wait ack now wide a e,
            inside wide a s,
            more,
            repeat_lem preset wait ack now wide n (record e { ptr = a }) p q,
          )
          (ld_ptr_inc_lem preset wait ack now wide n (record e { ptr = a; repeat_next = n - 1 })
            (omega arith) (omega arith))
    | inr one ↦
        rw (le→ltb 256 n q, st_ptr_lem preset wait ack now wide a e, inside wide a s, one)
          (ld_ptr_inc_lem preset wait ack now wide n (record e { ptr = a }) (grind arith)
            (omega arith))
  ]

  st_block_lem :
      (ack : Bool) (xs : List ℕ) (e : Core)
      → 0 < length xs
      → e.repeat_next ≡ length xs - 1
      → e.ptr + length xs < 2 ^ 32
      → st_ptr_inc (emu_transport preset) xs (at_rest wide wait ack e now) ≡ (
        done tt,
        at_rest wide wait ack
            (record e {
              memory = store_all preset e.ptr xs e.memory;
              ptr = e.ptr + length xs;
              repeat_next = 0;
            })
            now,
      )
  st_block_lem ack [] e h r b = elim h [ ]
  st_block_lem ack (x ∷ xs) e h r b = st_ptr_inc_lem preset wait ack now wide x xs e (omega arith) b

  -- one round of the loop: `k` bytes go to the target
  write_round :
      (ack : Bool) (fuel a k b : ℕ) (rest : List ℕ) (e : Core)
      → (if ltb 256 (length (b ∷ rest)) then 256 else length (b ∷ rest)) ≡ k
      → a + length (b ∷ rest) ≤ reach wide
      → write_chunks (emu_transport preset) (suc fuel) a (b ∷ rest) (at_rest wide wait ack e now)
        ≡ write_chunks (emu_transport preset) fuel (a + k) (drop k (b ∷ rest)) (
            at_rest wide wait ack
              (record e {
                memory = store_all preset a (take k (b ∷ rest)) e.memory;
                ptr = a + k;
                repeat_next = 0;
              })
              now)
  unfolding write_chunks
  write_round ack fuel a k b rest e size s =
      let fits : (0 < k) × (k ≤ 256) × (k ≤ length (b ∷ rest)) =
        rw size at (chunk_fits (length (b ∷ rest)) (omega arith)) in
      let small = reach_small wide in
      let next : (a + k) % 2 ^ 32 ≡ a + k = omega arith in
      let taken : length (take k (b ∷ rest)) ≡ k = omega (arith, length-take k (b ∷ rest)) in
      rw (
        size,
        st_ptr_lem preset wait ack now wide a e,
        inside wide a (omega arith),
        repeat_lem preset wait ack now wide k (record e { ptr = a }) fits.0 fits.1,
        st_block_lem ack (take k (b ∷ rest)) (record e { ptr = a; repeat_next = k - 1 })
            (omega arith) (omega arith) (omega arith),
        taken,
        next,
      )

  write_chunks_lem :
      (ack : Bool) (fuel a : ℕ) (bs : List ℕ) (e : Core)
      → e.repeat_next ≡ 0
      → length bs ≤ fuel
      → a + length bs ≤ reach wide
      → (p : ℕ) × (write_chunks (emu_transport preset) fuel a bs (at_rest wide wait ack e now) ≡ (
        done tt,
        at_rest wide wait ack
            (record e { memory = store_all preset a bs e.memory; ptr = p; repeat_next = 0 })
            now,
      ))
  write_chunks_lem ack fuel a [] e r f s = (e.ptr, unfold write_chunks store_all in rw r)
  write_chunks_lem ack zero a (b ∷ rest) e r f s = elim f [ ]
  write_chunks_lem ack (suc fuel) a (b ∷ rest) e r f s =
      let bs = b ∷ rest in
      let k = if ltb 256 (length bs) then 256 else length bs in
      let fits = chunk_fits (length bs) (omega arith) in
      let e1 = record e {
        memory = store_all preset a (take k bs) e.memory;
        ptr = a + k;
        repeat_next = 0;
      } in
      let (p, ih) =
        write_chunks_lem ack fuel (a + k) (drop k bs) e1 refl (omega (arith, length-drop k bs))
          (omega (arith, length-drop k bs)) in
      (
        p,
        write_round ack fuel a k b rest e refl s
            ∙ rw (store_all-chunks preset a k bs e.memory fits.2) at ih,
      )

  -- On the emulator with no repeat pending, a write of at least one byte, within the addresses that
  -- the link can express, returns and leaves the bytes in the memory from the address up, in order.
  pub port_write_data_lem :
      (ack : Bool) (a : ℕ) (bs : List ℕ) (e : Core)
      → e.repeat_next ≡ 0
      → 0 < length bs
      → a + length bs ≤ reach wide
      → (p : ℕ) × (write_data (emu_transport preset) a bs (at_rest wide wait ack e now) ≡ (
        done tt,
        at_rest wide wait ack
            (record e { memory = store_all preset a bs e.memory; ptr = p; repeat_next = 0 })
            now,
      ))
  unfolding write_data
  port_write_data_lem ack a [] e r p s = elim p [ ]
  port_write_data_lem ack a (b ∷ []) e r p s = (
    e.ptr,
    unfold store_all in
        rw (st_byte_lem preset wait ack now wide a b e, inside wide a (omega arith), ← r),
  )
  port_write_data_lem ack a (b ∷ c ∷ []) e r p s =
      let small = reach_small wide in
      let next : (a + 1) % 2 ^ 32 ≡ a + 1 = omega arith in
      (
        e.ptr,
        unfold store_all in
            rw (
              st_byte_lem preset wait ack now wide a b e,
              inside wide a (omega arith),
              next,
              st_byte_lem preset wait ack now wide (a + 1) c
                  (record e { memory = mem_write preset a b e.memory }),
              inside wide (a + 1) (omega arith),
              ← r,
            ),
      )
  port_write_data_lem ack a (b ∷ c ∷ d ∷ rest) e r p s =
      write_chunks_lem ack (length (b ∷ c ∷ d ∷ rest)) a (b ∷ c ∷ d ∷ rest) e r (omega arith) s
