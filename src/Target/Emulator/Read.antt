-- ===== src/Target/Emulator/Read.antt =====
-- Reads of any length of updi/updi_nvm.c and the comparison of updi/updi_session.c, run on the
-- emulator.
use updi_programmer.Prelude.{
  ℕ, zero, suc, ◌+◌, ◌-◌, ◌%◌, ◌^◌, ◌<◌, ◌≤◌, ◌≡◌, refl, ap, sym, ◌∙◌, Bool, List, [], ◌++◌, arith,
  ltb, if◌then◌else◌,
}
use mathlib.Core.List.{append_assoc, append-nil}
use updi_programmer.Devices.Table.{Row}
use updi_programmer.Port.Call.{done}
use updi_programmer.Port.Link.{UpdiLink}
use updi_programmer.Port.Link.Data.{read_data}
use updi_programmer.Port.Nvm.Memory as NvmMemory
use updi_programmer.Port.Session.{UpdiSession, read_loop}
use updi_programmer.Target.Memory.{Preset, Memory, read_range}
use updi_programmer.Target.Device.{Core}
use updi_programmer.Target.Transfer.Frame.{read_range-split}
use updi_programmer.Target.Emulator.{Emu, emu_transport, at_rest, reach}
use updi_programmer.Target.Emulator.Data.{chunk_fits, reach_small, port_read_data_lem}

module _ (preset : Preset) where
  pub same_range :
      {a a' n n' : ℕ} {m m' : Memory}
      → a ≡ a'
      → n ≡ n'
      → m ≡ m'
      → read_range preset m a n ≡ read_range preset m' a' n'
  same_range p q r = rw (p, q, r)

  pub split_at :
      (a k n : ℕ) (m : Memory)
      → k ≤ n
      → a + n < 2 ^ 32
      → read_range preset m a k ++ read_range preset m (a + k) (n - k) ≡ read_range preset m a n
  split_at a k n m p b =
      let whole : k + (n - k) ≡ n = omega arith in
      sym (rw whole at (read_range-split preset a k (n - k) m (omega arith)))

module _ (preset : Preset) (wait : ℕ) (wide : Bool) (ack : Bool) (now : ℕ) where
  abbrev rest : Core → UpdiLink Emu
  rest e = at_rest wide wait ack e now

  read_loop_lem :
      (fuel a n : ℕ) (acc : List ℕ) (e : Core)
      → e.repeat_next ≡ 0
      → n ≤ fuel
      → a + n ≤ reach wide
      → (e' : Core) × (NvmMemory.read_loop (emu_transport preset) fuel a n acc (rest e)
          ≡ (done (acc ++ read_range preset e.memory a n), rest e'))
        × (e'.memory ≡ e.memory)
        × (e'.repeat_next ≡ 0)
  unfolding NvmMemory.read_loop read_range
  read_loop_lem zero a zero acc e r f s = (e, rw (append-nil acc), refl, r)
  read_loop_lem (suc fuel) a zero acc e r f s = (e, rw (append-nil acc), refl, r)
  read_loop_lem zero a (suc n) acc e r f s = absurd (omega arith)
  read_loop_lem (suc fuel) a (suc n) acc e r f s =
      let k = if ltb 256 (suc n) then 256 else suc n in
      let fits = chunk_fits (suc n) (omega arith) in
      let small = reach_small wide in
      let here : a % 2 ^ 32 ≡ a = omega arith in
      let xs = read_range preset e.memory a k in
      let e1 = record e { repeat_next = 0; ptr = (a + k) % 2 ^ 32 } in
      let (e', rest_read, kept, r') =
        read_loop_lem fuel (a + k) (suc n - k) (acc ++ xs) e1 refl (omega arith) (omega arith) in
      let ys = read_range preset e.memory (a + k) (suc n - k) in
      let joined : (acc ++ xs) ++ ys ≡ acc ++ read_range preset e.memory a (suc n) =
        append_assoc acc xs ys
        ∙ ap (λ (l : List ℕ). acc ++ l)
            (split_at preset a k (suc n) e.memory (omega arith) (omega arith)) in
      let got : read_data (emu_transport preset) (a % 2 ^ 32) k (rest e) ≡ (done xs, rest e1) =
        rw here (
          port_read_data_lem preset wait now wide ack a k e r (omega arith) (omega arith)
            (omega arith)) in
      (e', rw got (rw joined at rest_read), kept, r')

pub session_chunk : (n : ℕ) → 0 < n → let k = if ltb n 256 then n else 256 in (0 < k) × (k ≤ n)
session_chunk n h = ground arith

module _ (preset : Preset) (d : Row) (wait : ℕ) (wide : Bool) (ack : Bool) (now : ℕ)
    (s : UpdiSession Emu) where
  -- the session with its link at rest
  abbrev pub live : Core → UpdiSession Emu
  live e = record s { link = at_rest wide wait ack e now }

  chunk_at_lem :
      (a k : ℕ) (e : Core)
      → e.repeat_next ≡ 0
      → a + k ≤ reach wide
      → (e' : Core) × (NvmMemory.read (emu_transport preset) a k (at_rest wide wait ack e now)
          ≡ (done (read_range preset e.memory a k), at_rest wide wait ack e' now))
        × (e'.memory ≡ e.memory)
        × (e'.repeat_next ≡ 0)
  unfolding NvmMemory.read
  chunk_at_lem a k e r b =
      let (e', got, kept, r') =
        read_loop_lem preset wait wide ack now k a k [] e r (omega arith) b in
      (e', rw got, kept, r')

  -- one read of the session
  pub chunk_lem :
      (off k : ℕ) (e : Core)
      → e.repeat_next ≡ 0
      → d.flash_address + off + k ≤ reach wide
      → (e' : Core) × (NvmMemory.read
            (emu_transport preset)
            ((d.flash_address + off) % 2 ^ 32)
            k
            (at_rest wide wait ack e now)
          ≡ (
            done (read_range preset e.memory (d.flash_address + off) k),
            at_rest wide wait ack e' now,
          ))
        × (e'.memory ≡ e.memory)
        × (e'.repeat_next ≡ 0)
  unfolding NvmMemory.read
  chunk_lem off k e r b =
      let small = reach_small wide in
      let here : (d.flash_address + off) % 2 ^ 32 ≡ d.flash_address + off = omega arith in
      rw here (chunk_at_lem (d.flash_address + off) k e r b)

  pub session_read_loop_lem :
      (fuel off n : ℕ) (acc : List ℕ) (e : Core)
      → e.repeat_next ≡ 0
      → n ≤ fuel
      → d.flash_address + off + n ≤ reach wide
      → (e' : Core) × (read_loop (emu_transport preset) d fuel off n acc (live e)
          ≡ (done (acc ++ read_range preset e.memory (d.flash_address + off) n), live e'))
        × (e'.memory ≡ e.memory)
        × (e'.repeat_next ≡ 0)
  unfolding read_loop read_range
  session_read_loop_lem zero off zero acc e r f b = (e, rw (append-nil acc), refl, r)
  session_read_loop_lem (suc fuel) off zero acc e r f b = (e, rw (append-nil acc), refl, r)
  session_read_loop_lem zero off (suc n) acc e r f b = absurd (omega arith)
  session_read_loop_lem (suc fuel) off (suc n) acc e r f b =
      let k = if ltb (suc n) 256 then suc n else 256 in
      let fits = session_chunk (suc n) (omega arith) in
      let small = reach_small wide in
      let a = d.flash_address + off in
      let next : d.flash_address + (off + k) ≡ a + k = omega arith in
      let (e1, got, kept, r1) = chunk_lem off k e r (omega arith) in
      let xs = read_range preset e.memory a k in
      let ys = read_range preset e1.memory (d.flash_address + (off + k)) (suc n - k) in
      let whole : xs ++ ys ≡ read_range preset e.memory a (suc n) =
        ap (λ (l : List ℕ). xs ++ l) (same_range preset next refl kept)
        ∙ split_at preset a k (suc n) e.memory fits.1 (omega arith) in
      let joined : (acc ++ xs) ++ ys ≡ acc ++ read_range preset e.memory a (suc n) =
        append_assoc acc xs ys ∙ ap (λ (l : List ℕ). acc ++ l) whole in
      let (e', ends, kept', r') =
        session_read_loop_lem fuel (off + k) (suc n - k) (acc ++ xs) e1 r1 (omega arith)
          (omega arith) in
      (e', rw got (rw joined at ends), kept' ∙ kept, r')
