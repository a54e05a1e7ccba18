-- ===== src/Target/Emulator/Verify.antt =====
-- The comparison of updi/updi_session.c with a flash that may hold anything.
use updi_programmer.Prelude.{
  ℕ, zero, suc, ◌+◌, ◌-◌, ◌%◌, ◌^◌, ◌<◌, ◌≤◌, ◌≡◌, refl, ap, sym, ◌∙◌, Bool, true, Option, none,
  some, List, [], ◌∷◌, ◌++◌, arith, ltb, if◌then◌else◌,
}
use updi_programmer.Prelude.Lists.{length, take, drop, take-append-drop, length-take, length-drop}
use updi_programmer.Devices.Table.{Row}
use updi_programmer.Port.Call.{Call, done}
use updi_programmer.Port.Nvm.Memory as NvmMemory
use updi_programmer.Port.Session.{
  UpdiSession, Mismatch, first_mismatch, unless_found, verify_loop, verify_flash, connected_device,
}
use updi_programmer.Target.Memory.{Preset, Memory, read_range}
use updi_programmer.Target.Device.{Core}
use updi_programmer.Target.Line.Block.{length-read_range}
use updi_programmer.Target.Emulator.{Emu, emu_transport, at_rest, reach}
use updi_programmer.Target.Emulator.Data.{reach_small}
use updi_programmer.Target.Emulator.Read.{same_range, split_at, chunk_lem, session_chunk, live}
use updi_programmer.Port.Session.Mismatches.{
  pick, first_mismatch-append, Reports, first_mismatch-Reports,
}

module _ (preset : Preset) (d : Row) (wait : ℕ) (wide : Bool) (ack : Bool) (now : ℕ)
    (s : UpdiSession Emu) where
  abbrev session : Core → UpdiSession Emu
  session = live preset d wait wide ack now s

  -- the target is left with this memory, and no repeat pending
  abbrev Left : Core → Memory → Type 0
  Left e m = (e.memory ≡ m) × (e.repeat_next ≡ 0)

  unless_found_lem :
      (o r : Option Mismatch) (next : Call (UpdiSession Emu) (Option Mismatch)) (e1 e2 : Core)
      (m : Memory)
      → next (session e1) ≡ (done r, session e2)
      → Left e1 m
      → Left e2 m
      → (e' : Core) × (unless_found o next (session e1) ≡ (done (pick o r), session e')) × Left e' m
  unfolding unless_found pick
  unless_found_lem (some found) r next e1 e2 m h p q = (e1, refl, p)
  unless_found_lem none r next e1 e2 m h p q = (e2, h, q)

  round :
      (fuel off x : ℕ) (xs bytes : List ℕ) (e e1 : Core)
      → let bs = x ∷ xs in
        let k = if ltb (length bs) 256 then length bs else 256 in
        NvmMemory.read
            (emu_transport preset)
            ((d.flash_address + off) % 2 ^ 32)
            k
            (at_rest wide wait ack e now)
          ≡ (done bytes, at_rest wide wait ack e1 now)
        → verify_loop (emu_transport preset) d (suc fuel) off bs (session e)
          ≡ unless_found
              (first_mismatch off bytes (take k bs))
              (verify_loop (emu_transport preset) d fuel (off + k) (drop k bs))
              (session e1)
  unfolding verify_loop
  round fuel off x xs bytes e e1 got = rw got

  -- what a comparison with this memory gives
  abbrev compared : Memory → ℕ → List ℕ → Option Mismatch
  compared m off bs =
      first_mismatch off (read_range preset m (d.flash_address + off) (length bs)) bs

  compared-parts :
      (off k : ℕ) (bs : List ℕ) (e : Core)
      → k ≤ length bs
      → d.flash_address + off + length bs < 2 ^ 32
      → compared e.memory off bs
        ≡ pick
            (first_mismatch off (read_range preset e.memory (d.flash_address + off) k) (take k bs))
            (compared e.memory (off + k) (drop k bs))
  compared-parts off k bs e h b =
      let a = d.flash_address + off in
      let xs = read_range preset e.memory a k in
      let ys = read_range preset e.memory (a + k) (length bs - k) in
      let full : length xs ≡ k = length-read_range preset 0 k a e in
      let taken : length xs ≡ length (take k bs) = omega (arith, full, length-take k bs) in
      let next : a + k ≡ d.flash_address + (off + k) = omega arith in
      let behind : ys
          ≡ read_range preset e.memory (d.flash_address + (off + k)) (length (drop k bs)) =
        same_range preset next (sym (length-drop k bs)) refl in
      sym (
        ap (λ (l : List ℕ). first_mismatch off l bs) (split_at preset a k (length bs) e.memory h b))
      ∙ sym (ap (λ (l : List ℕ). first_mismatch off (xs ++ ys) l) (take-append-drop k bs))
      ∙ first_mismatch-append off xs ys (take k bs) (drop k bs) taken
      ∙ ap
          (λ (n : ℕ).
            pick (first_mismatch off xs (take k bs)) (first_mismatch (off + n) ys (drop k bs)))
          full
      ∙ ap
          (λ (l : List ℕ).
            pick (first_mismatch off xs (take k bs)) (first_mismatch (off + k) l (drop k bs)))
          behind

  verify_loop_compares :
      (fuel off : ℕ) (bs : List ℕ) (e : Core)
      → e.repeat_next ≡ 0
      → length bs ≤ fuel
      → d.flash_address + off + length bs ≤ reach wide
      → (e' : Core) × (verify_loop (emu_transport preset) d fuel off bs (session e)
          ≡ (done (compared e.memory off bs), session e'))
        × Left e' e.memory
  unfolding verify_loop first_mismatch read_range
  verify_loop_compares zero off [] e r f b = (e, refl, (refl, r))
  verify_loop_compares (suc fuel) off [] e r f b = (e, refl, (refl, r))
  verify_loop_compares zero off (x ∷ xs) e r f b = absurd (omega arith)
  verify_loop_compares (suc fuel) off (x ∷ xs) e r f b =
      let bs = x ∷ xs in
      let k = if ltb (length bs) 256 then length bs else 256 in
      let fits = session_chunk (length bs) (omega arith) in
      let small = reach_small wide in
      let bytes = read_range preset e.memory (d.flash_address + off) k in
      let (e1, got, kept, r1) = chunk_lem preset d wait wide ack now s off k e r (omega arith) in
      let (e2, others, left2) =
        verify_loop_compares fuel (off + k) (drop k bs) e1 r1 (omega (arith, length-drop k bs))
          (omega (arith, length-drop k bs)) in
      let (e', ends, left') =
        unless_found_lem (first_mismatch off bytes (take k bs))
          (compared e1.memory (off + k) (drop k bs))
          (verify_loop (emu_transport preset) d fuel (off + k) (drop k bs)) e1 e2 e.memory others
          (kept, r1) (left2.0 ∙ kept, left2.1) in
      let same : compared e1.memory (off + k) (drop k bs)
          ≡ compared e.memory (off + k) (drop k bs) =
        ap (λ (m : Memory). compared m (off + k) (drop k bs)) kept in
      let result : pick (first_mismatch off bytes (take k bs))
            (compared e1.memory (off + k) (drop k bs))
          ≡ compared e.memory off bs =
        ap (λ (o : Option Mismatch). pick (first_mismatch off bytes (take k bs)) o) same
        ∙ sym (compared-parts off k bs e fits.1 (omega arith)) in
      (
        e',
        round fuel off x xs bytes e e1 got
            ∙ ends
            ∙ ap (λ (o : Option Mismatch). (done o, session e')) result,
        left',
      )

-- a connected session for the device
pub record Connected (s : UpdiSession Emu) (d : Row) : Type 0 where
  pub device : s.device ≡ some d
  pub nvm_device : s.nvm_device ≡ some d
  pub connected : s.connected ≡ true

module _ (preset : Preset) (d : Row) (wait : ℕ) (wide : Bool) (ack : Bool) (now : ℕ)
    (s : UpdiSession Emu) (c : Connected s d) where
  guarded :
      (bs : List ℕ) (e : Core)
      → verify_flash (emu_transport preset) bs (live preset d wait wide ack now s e)
        ≡ verify_loop
            (emu_transport preset)
            d
            (length bs)
            0
            bs
            (live preset d wait wide ack now s e)
  unfolding verify_flash connected_device
  guarded bs e = rw (c.device, c.connected)

  -- the code's comparison, of what the flash holds
  pub verify_flash_compares :
      (bs : List ℕ) (e : Core)
      → e.repeat_next ≡ 0
      → d.flash_address + length bs ≤ reach wide
      → (e' : Core) × (verify_flash (emu_transport preset) bs (live preset d wait wide ack now s e)
          ≡ (
            done (first_mismatch 0 (read_range preset e.memory d.flash_address (length bs)) bs),
            live preset d wait wide ack now s e',
          ))
        × (e'.memory ≡ e.memory)
  verify_flash_compares bs e r b =
      let from : d.flash_address + 0 ≡ d.flash_address = omega arith in
      let (e', ends, left) =
        verify_loop_compares preset d wait wide ack now s (length bs) 0 bs e r (omega arith)
          (omega arith) in
      (
        e',
        guarded bs e
            ∙ ends
            ∙ ap
                (λ (a : ℕ). (
                  done (first_mismatch 0 (read_range preset e.memory a (length bs)) bs),
                  live preset d wait wide ack now s e',
                ))
                from,
        left.0,
      )

  -- In a connected session whose link to the emulator is at rest with no repeat pending,
  -- `verify_flash` of bytes within the addresses of the link returns and leaves the memory alone,
  -- whatever it holds. Where it reports no mismatch the device's flash holds the bytes. Where it
  -- reports one, the flash holds the bytes up to its offset, and at its offset the flash holds its
  -- actual byte and the bytes have its expected one, which are two different bytes.
  pub verify_flash-Reports :
      (bs : List ℕ) (e : Core)
      → e.repeat_next ≡ 0
      → d.flash_address + length bs ≤ reach wide
      → (r : Option Mismatch) × (e' : Core) × (verify_flash
            (emu_transport preset)
            bs
            (live preset d wait wide ack now s e)
          ≡ (done r, live preset d wait wide ack now s e'))
        × Reports r (read_range preset e.memory d.flash_address (length bs)) bs
        × (e'.memory ≡ e.memory)
  verify_flash-Reports bs e r b =
      let held = read_range preset e.memory d.flash_address (length bs) in
      let (e', ends, kept) = verify_flash_compares bs e r b in
      (
        first_mismatch 0 held bs,
        e',
        ends,
        first_mismatch-Reports held bs (length-read_range preset 0 (length bs) d.flash_address e),
        kept,
      )
