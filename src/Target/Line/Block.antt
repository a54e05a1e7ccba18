-- ===== src/Target/Line/Block.antt =====
-- The block instructions of link.py run on the line: loads and stores through the pointer, as many
-- as the repeat counter says.
use updi_programmer.Prelude.{
  ℕ, zero, suc, ◌+◌, ◌-◌, ◌*◌, ◌%◌, ◌^◌, ◌<◌, ◌≤◌, ◌≡◌, refl, sym, ap, ◌∙◌, List, [], ◌∷◌, ◌++◌,
  arith, leb, lt→ltb, if◌then◌else◌,
}
use mathlib.Core.List.{append_assoc, append-nil}
use updi_programmer.Prelude.Lists.{length, length-append}
use updi_programmer.Exec.{ok}
use updi_programmer.Phys.{send, receive, receive_loop}
use updi_programmer.Constants.{updi_phy_sync}
use updi_programmer.Link.Base.{st_each, st_ptr_inc, ld_ptr_inc, ld_ptr_inc16}
use updi_programmer.Target.Memory.{Preset, mem_write, read_range}
use updi_programmer.Target.Device.{Core, Phase, store_all}
use updi_programmer.Target.Line.{Line, line, line_serial, quiet, emu_send, rx_push}
use updi_programmer.Target.Line.Direct.{phy}

module _ (preset : Preset) (baud : ℕ) where
  pub length-read_range : (n a : ℕ) (e : Core) → length (read_range preset e.memory a n) ≡ n
  unfolding read_range
  length-read_range zero a e = refl
  length-read_range (suc n) a e = ap suc (length-read_range n ((a + 1) % 2 ^ 32) e)

  -- what is waiting on the line is received in full
  receive_loop-append :
      (xs acc rest : List ℕ) (e : Core) (p : Phase)
      → receive_loop (line_serial preset) (length xs) acc (line e p (xs ++ rest))
        ≡ (acc ++ xs, line e p rest)
  unfolding receive_loop
  receive_loop-append [] acc rest e p = rw append-nil
  receive_loop-append (x ∷ xs) acc rest e p =
      receive_loop-append xs (acc ++ x ∷ []) rest e p
      ∙ ap (λ (l : List ℕ). (l, line e p rest)) (append_assoc acc (x ∷ []) xs)

  receive_all :
      (n : ℕ) (xs : List ℕ) (e : Core)
      → length xs ≡ n
      → receive (line_serial preset) n (line e Phase.idle xs) ≡ (ok xs, quiet e)
  unfolding receive
  receive_all n xs e h =
      let full : receive_loop (line_serial preset) (length xs) [] (line e Phase.idle xs)
          ≡ (xs, quiet e) =
        rw append-nil at (receive_loop-append xs [] [] e Phase.idle) in
      rw (← h) (ap (λ (p : List ℕ × Line). (ok p.0, p.1)) full)

-- a queue with room takes every byte
pub rx_push-append : (rx bs : List ℕ) → length rx + length bs ≤ 2047 → rx_push rx bs ≡ rx ++ bs
unfolding rx_push
rx_push-append rx [] h = sym (append-nil rx)
rx_push-append rx (b ∷ bs) h = rw (lt→ltb (length rx) 2047 (omega arith)) (
    rx_push-append (rx ++ b ∷ []) bs (omega (arith, length-append rx (b ∷ [])))
    ∙ append_assoc rx (b ∷ []) bs)

-- the decoder inside a block, with `k` bytes to come
abbrev pub block_phase : ℕ → Phase
block_phase zero = Phase.idle
block_phase (suc k) = Phase.stinc8 (suc k)

pub block_phase-suc :
    (k : ℕ) → (if leb (suc k) 1 then Phase.idle else Phase.stinc8 (suc k - 1)) ≡ block_phase k
block_phase-suc zero = refl
block_phase-suc (suc k) = ground arith

module _ (preset : Preset) (baud : ℕ) where
  st_each_lem :
      (bs : List ℕ) (e : Core)
      → e.ptr + length bs < 2 ^ 32
      → st_each (phy preset baud) bs (line e (block_phase (length bs)) []) ≡ (
        ok tt,
        quiet (record e { memory = store_all preset e.ptr bs e.memory; ptr = e.ptr + length bs }),
      )
  unfolding st_each send receive emu_send store_all
  st_each_lem [] e h = let z : e.ptr + 0 ≡ e.ptr = omega arith in rw z
  st_each_lem (b ∷ bs) e h =
      let next : (e.ptr + 1) % 2 ^ 32 ≡ e.ptr + 1 = omega arith in
      let total : e.ptr + 1 + length bs ≡ e.ptr + suc (length bs) = omega arith in
      rw (block_phase-suc (length bs), next, ← total)
        (st_each_lem bs (record e { memory = mem_write preset e.ptr b e.memory; ptr = e.ptr + 1 })
          (omega arith))

  -- A block store through the pointer, after a repeat of as many bytes.
  pub st_ptr_inc_lem :
      (b : ℕ) (bs : List ℕ) (e : Core)
      → e.repeat_next ≡ length bs
      → e.ptr + suc (length bs) < 2 ^ 32
      → st_ptr_inc (phy preset baud) (b ∷ bs) (quiet e) ≡ (
        ok tt,
        quiet (record e {
          memory = store_all preset e.ptr (b ∷ bs) e.memory;
          ptr = e.ptr + suc (length bs);
          repeat_next = 0;
        }),
      )
  unfolding st_ptr_inc send receive emu_send store_all
  st_ptr_inc_lem b bs e r h =
      let count : e.repeat_next + 1 ≡ suc (length bs) = omega arith in
      let next : (e.ptr + 1) % 2 ^ 32 ≡ e.ptr + 1 = omega arith in
      let total : e.ptr + 1 + length bs ≡ e.ptr + suc (length bs) = omega arith in
      rw (count, block_phase-suc (length bs), next, ← total)
        (st_each_lem bs
          (record e {
            memory = mem_write preset e.ptr b e.memory;
            ptr = e.ptr + 1;
            repeat_next = 0;
          })
          (omega arith))

  pub ld_ptr_inc_lem :
      (n : ℕ) (e : Core)
      → e.repeat_next + 1 ≡ n
      → n ≤ 2000
      → ld_ptr_inc (phy preset baud) n (quiet e) ≡ (
        ok (read_range preset e.memory e.ptr n),
        quiet (record e { repeat_next = 0; ptr = (e.ptr + n) % 2 ^ 32 }),
      )
  unfolding ld_ptr_inc send receive emu_send
  ld_ptr_inc_lem n e r h =
      let count : (e.repeat_next + 1) * 1 ≡ n = omega arith in
      let xs = read_range preset e.memory e.ptr n in
      rw
        (
          count,
          rx_push-append (updi_phy_sync ∷ 36 ∷ []) xs
              (omega (arith, length-read_range preset baud n e.ptr e)),
        )
        (receive_all preset baud n xs _ (length-read_range preset baud n e.ptr e))

  pub ld_ptr_inc16_lem :
      (n : ℕ) (e : Core)
      → e.repeat_next + 1 ≡ n
      → n ≤ 1000
      → ld_ptr_inc16 (phy preset baud) n (quiet e) ≡ (
        ok (read_range preset e.memory e.ptr (n * 2)),
        quiet (record e { repeat_next = 0; ptr = (e.ptr + n * 2) % 2 ^ 32 }),
      )
  unfolding ld_ptr_inc16 send receive emu_send
  ld_ptr_inc16_lem n e r h =
      let count : (e.repeat_next + 1) * 2 ≡ n * 2 = omega arith in
      let xs = read_range preset e.memory e.ptr (n * 2) in
      rw
        (
          count,
          rx_push-append (updi_phy_sync ∷ 37 ∷ []) xs
              (omega (arith, length-read_range preset baud (n * 2) e.ptr e)),
        )
        (receive_all preset baud (n * 2) xs _ (length-read_range preset baud (n * 2) e.ptr e))
