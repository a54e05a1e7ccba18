-- ===== src/Target/Transfer.antt =====
-- readwrite.py on the line: what a read returns and what a write leaves in the target's memory.
pub mod RoundTrip
pub mod Frame
pub mod Words
pub mod Overlay
pub mod Limits
use updi_programmer.Prelude.{
  ℕ, zero, suc, ◌+◌, ◌-◌, ◌%◌, ◌^◌, ◌<◌, ◌≤◌, ◌≡◌, refl, ap, sym, ◌∙◌, List, [], ◌∷◌, ◌++◌, arith,
  ltb, le→ltb, lt→ltb, Bool-cases, inl, inr, if◌then◌else◌, true, false, ltb→lt, min,
}
use native.Mathlib.Nat.{mod-eq_of_lt}
use updi_programmer.Prelude.Lists.{length, take, drop, take-append-drop, length-take, length-drop}
use updi_programmer.Exec.{ok, pure, ◌>>=◌, raise_if}
use updi_programmer.Link.{Datalink}
use updi_programmer.ReadWrite.{read_data, write_data, write_chunks}
use updi_programmer.Target.Memory.{Preset, Memory, mem_write, read_range}
use updi_programmer.Target.Device.{Core, store_all}
use updi_programmer.Target.Line.{Line, quiet}
use updi_programmer.Target.Link.{Speaks}

module _ (preset : Preset) (space : ℕ) (dl : Datalink Line) (link : Speaks preset space dl) where
  -- Through a link that speaks to a quiet target with no repeat pending, a read of 1 to 256 bytes from
  -- an address that the link can express returns the bytes of the range, and leaves the memory alone.
  pub read_data_lem :
      (a n : ℕ) (e : Core)
      → e.repeat_next ≡ 0
      → 0 < n
      → n ≤ 256
      → a < space
      → read_data dl a n (quiet e) ≡ (
        ok (read_range preset e.memory a n),
        quiet (record e { repeat_next = 0; ptr = (a + n) % 2 ^ 32 }),
      )
  unfolding read_data raise_if
  read_data_lem a n e r p q s =
      let inside : a % space ≡ a = mod-eq_of_lt s in
      elim (Bool-cases (ltb 1 n)) [
        | inl more ↦
            rw
              (
                le→ltb 256 n q,
                link.st_ptr_lem a e,
                more,
                link.repeat_lem n _ p (omega arith),
                inside,
              )
              (link.ld_ptr_inc_lem n _ (omega arith) (omega arith))
        | inr one ↦
            rw (le→ltb 256 n q, link.st_ptr_lem a e, one, inside)
              (link.ld_ptr_inc_lem n _ (grind arith) (omega arith))
      ]

-- every element is a byte
abbrev pub IsBytes : List ℕ → Type 0
IsBytes [] = Unit
IsBytes (b ∷ bs) = (b < 256) × IsBytes bs

-- a store of two parts, one behind the other
pub store_all-append :
    (preset : Preset) (a : ℕ) (xs ys : List ℕ) (m : Memory)
    → store_all preset a (xs ++ ys) m
      ≡ store_all preset (a + length xs) ys (store_all preset a xs m)
unfolding store_all
store_all-append preset a [] ys m = let z : a + 0 ≡ a = omega arith in rw z
store_all-append preset a (x ∷ xs) ys m =
    let z : a + suc (length xs) ≡ a + 1 + length xs = omega arith in
    rw z (store_all-append preset (a + 1) xs ys (mem_write preset a x m))

pub store_all-chunks :
    (preset : Preset) (a k : ℕ) (bs : List ℕ) (m : Memory)
    → k ≤ length bs
    → store_all preset (a + k) (drop k bs) (store_all preset a (take k bs) m)
      ≡ store_all preset a bs m
store_all-chunks preset a k bs m h =
    let taken : length (take k bs) ≡ k = omega (arith, length-take k bs) in
    let whole : take k bs ++ drop k bs ≡ bs = take-append-drop k bs in
    sym (rw (whole, taken) at (store_all-append preset a (take k bs) (drop k bs) m))

module _ (preset : Preset) (space : ℕ) (dl : Datalink Line) (link : Speaks preset space dl) where
  st_block_lem :
      (xs : List ℕ) (e : Core)
      → 0 < length xs
      → e.repeat_next ≡ length xs - 1
      → e.ptr + length xs < 2 ^ 32
      → dl.st_ptr_inc xs (quiet e) ≡ (
        ok tt,
        quiet (record e {
          memory = store_all preset e.ptr xs e.memory;
          ptr = e.ptr + length xs;
          repeat_next = 0;
        }),
      )
  st_block_lem [] e h r b = elim h [ ]
  st_block_lem (x ∷ xs) e h r b = link.st_ptr_inc_lem x xs e (omega arith) b

  -- the size of a round, and what it leaves
  pub chunk_fits :
      (n : ℕ) → 0 < n → let k = if ltb 256 n then 256 else n in (0 < k) × (k ≤ 256) × (k ≤ n)
  chunk_fits n h = ground arith

  -- one round of the loop: `k` bytes go to the target
  write_round :
      (fuel a k b : ℕ) (rest : List ℕ) (e : Core)
      → (if ltb 256 (length (b ∷ rest)) then 256 else length (b ∷ rest)) ≡ k
      → a + length (b ∷ rest) ≤ space
      → write_chunks dl (suc fuel) a (b ∷ rest) (quiet e)
        ≡ write_chunks dl fuel (a + k) (drop k (b ∷ rest)) (
            quiet (record e {
              memory = store_all preset a (take k (b ∷ rest)) e.memory;
              ptr = a + k;
              repeat_next = 0;
            }))
  unfolding write_chunks
  write_round fuel a k b rest e size s =
      let fits : (0 < k) × (k ≤ 256) × (k ≤ length (b ∷ rest)) =
        rw size at (chunk_fits (length (b ∷ rest)) (omega arith)) in
      let inside : a % space ≡ a = mod-eq_of_lt (omega arith) in
      let small : space ≤ 2 ^ 24 = link.space_small in
      let taken : length (take k (b ∷ rest)) ≡ k = omega (arith, length-take k (b ∷ rest)) in
      rw (
        size,
        link.st_ptr_lem a e,
        inside,
        link.repeat_lem k _ (omega arith) (omega arith),
        st_block_lem (take k (b ∷ rest)) (record e { ptr = a; repeat_next = k - 1 }) (omega arith)
            (omega arith) (omega arith),
        taken,
      )

  write_chunks_lem :
      (fuel a : ℕ) (bs : List ℕ) (e : Core)
      → e.repeat_next ≡ 0
      → length bs ≤ fuel
      → a + length bs ≤ space
      → (p : ℕ) × (write_chunks dl fuel a bs (quiet e) ≡ (
        ok tt,
        quiet (record e { memory = store_all preset a bs e.memory; ptr = p; repeat_next = 0 }),
      ))
  write_chunks_lem fuel a [] e r f s = (
    e.ptr,
    unfold write_chunks store_all in
        ap (λ (k : ℕ). (ok tt, quiet (record e { repeat_next = k }))) r,
  )
  write_chunks_lem zero a (b ∷ rest) e r f s = elim f [ ]
  write_chunks_lem (suc fuel) a (b ∷ rest) e r f s =
      let bs = b ∷ rest in
      let k = if ltb 256 (length bs) then 256 else length bs in
      let fits = chunk_fits (length bs) (omega arith) in
      let (p, ih) =
        write_chunks_lem fuel (a + k) (drop k bs)
          (record e {
            memory = store_all preset a (take k bs) e.memory;
            ptr = a + k;
            repeat_next = 0;
          })
          refl (omega (arith, length-drop k bs)) (omega (arith, length-drop k bs)) in
      (
        p,
        write_round fuel a k b rest e refl s
            ∙ rw (store_all-chunks preset a k bs e.memory fits.2) at ih,
      )

  -- a write of any number of bytes stores them one by one, from the address up
  pub write_data_lem :
      (a : ℕ) (bs : List ℕ) (e : Core)
      → e.repeat_next ≡ 0
      → IsBytes bs
      → a + length bs ≤ space
      → (p : ℕ) × (write_data dl a bs (quiet e) ≡ (
        ok tt,
        quiet (record e { memory = store_all preset a bs e.memory; ptr = p; repeat_next = 0 }),
      ))
  unfolding write_data
  write_data_lem a [] e r v s = write_chunks_lem 0 a [] e r (omega arith) s
  write_data_lem a (b ∷ []) e r v s =
      let inside : a % space ≡ a = mod-eq_of_lt (omega arith) in
      let byte : b % 256 ≡ b = omega arith in
      (e.ptr, unfold store_all in rw (link.st_lem a b e, inside, byte, ← r))
  write_data_lem a (b ∷ c ∷ []) e r v s =
      let inside : a % space ≡ a = mod-eq_of_lt (omega arith) in
      let inside' : (a + 1) % space ≡ a + 1 = mod-eq_of_lt (omega arith) in
      let byte : b % 256 ≡ b = omega arith in
      let byte' : c % 256 ≡ c = omega arith in
      (
        e.ptr,
        unfold store_all in
            rw (
              link.st_lem a b e,
              inside,
              byte,
              link.st_lem (a + 1) c (record e { memory = mem_write preset a b e.memory }),
              inside',
              byte',
              ← r,
            ),
      )
  write_data_lem a (b ∷ c ∷ d ∷ rest) e r v s =
      write_chunks_lem (length (b ∷ c ∷ d ∷ rest)) a (b ∷ c ∷ d ∷ rest) e r (omega arith) s
