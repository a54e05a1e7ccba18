-- ===== src/Port/Ends/Session.antt =====
-- The end of the calls of updi/updi_session.c that access memory.
use updi_programmer.Prelude.{
  ℕ, zero, suc, ◌+◌, ◌-◌, ◌%◌, ◌^◌, ◌<◌, ◌≤◌, ◌≡◌, ◌≢◌, refl, Bool, true, false, ◌||◌, Option, none,
  some, List, [], ◌∷◌, ◌++◌, arith, ltb, ◌==◌, if◌then◌else◌,
}
use updi_programmer.Prelude.Lists.{length, take, drop, length-drop}
use updi_programmer.Devices.Table.{Row}
use updi_programmer.Port.Call.{Call, failed, Status, give, fail, fail_if, ◌>>=◌}
use updi_programmer.Port.Transport.{Transport}
use updi_programmer.Port.Link.{UpdiLink}
use updi_programmer.Port.Nvm.Memory as NvmMemory
use updi_programmer.Port.Session.{
  UpdiSession, Mismatch, device_of, on_link, with_device, on_nvm, connected_device, unless_found,
  all_ff, page_buffer, first_mismatch, erase_with, chip_erase, write_page, write_pages, write_flash,
  verify_loop, verify_flash, read_loop, read_flash, fuses_from, read_fuses, write_fuse,
  updi_max_page, updi_read_chunk,
}
use updi_programmer.Port.Ends.{Ends, give-Ends, fail-Ends, if-Ends, bind-Ends}
use updi_programmer.Port.Ends.Nvm.{
  read-Ends, chip_erase-Ends, write_flash_page-Ends, read_fuse-Ends, write_fuse-Ends,
}

module _ {S A : Type 0} where
  on_link-Ends : {m : Call (UpdiLink S) A} → Ends m → Ends (on_link m)
  unfolding on_link
  on_link-Ends p = record { ends = λ s. p.ends s.link }

  with_device-Ends :
      (m : Row → Call (UpdiLink S) A) (o : Option Row)
      → ((d : Row) → Ends (m d))
      → Ends (with_device m o)
  unfolding with_device
  with_device-Ends m none p = fail-Ends Status.null_device (λ h. cc)
  with_device-Ends m (some d) p = on_link-Ends (p d)

  on_nvm-Ends : (m : Row → Call (UpdiLink S) A) → ((d : Row) → Ends (m d)) → Ends (on_nvm m)
  unfolding on_nvm
  on_nvm-Ends m p = record { ends = λ s. (with_device-Ends m s.nvm_device p).ends s }

device_of_ends : (o : Option Row) (b : Bool) → device_of o b ≢ failed Status.out_of_fuel
unfolding device_of
device_of_ends (some d) true h = cc
device_of_ends (some d) false h = cc
device_of_ends none true h = cc
device_of_ends none false h = cc

module _ {S : Type 0} where
  connected_device-Ends : Ends (connected_device {S = S})
  unfolding connected_device
  connected_device-Ends = record { ends = λ s. device_of_ends s.device s.connected }

  unless_found-Ends :
      (o : Option Mismatch) {next : Call (UpdiSession S) (Option Mismatch)}
      → Ends next
      → Ends (unless_found o next)
  unfolding unless_found
  unless_found-Ends (some m) p = give-Ends (some m)
  unless_found-Ends none p = p

  -- what follows a guard may rest on it
  guard-Ends :
      {A : Type 0} (b : Bool) (e : Status) {next : Call S A}
      → e ≢ Status.out_of_fuel
      → (b ≡ false → Ends next)
      → Ends (fail_if b e >>= λ _. next)
  unfolding ◌>>=◌ fail_if fail give
  guard-Ends true e ne p = record { ends = λ s h. ne cc }
  guard-Ends false e ne p = record { ends = λ s. (p refl).ends s }

-- a chunk, or what is left, leaves less
chunk_left :
    (fuel n : ℕ) → suc n ≤ suc fuel → suc n - (if ltb (suc n) 256 then suc n else 256) ≤ fuel
chunk_left fuel n h = ground arith

module _ {S : Type 0} (transport : Transport S) where
  write_page-Ends : (d : Row) (off : ℕ) (buf : List ℕ) → Ends (write_page transport d off buf)
  unfolding write_page
  write_page-Ends d off buf = if-Ends (all_ff buf) (give-Ends tt) (
      on_nvm-Ends
        (λ row. NvmMemory.write_flash_page transport row ((d.flash_address + off) % 2 ^ 32) buf)
        (λ row. write_flash_page-Ends transport row ((d.flash_address + off) % 2 ^ 32) buf))

  write_pages-Ends :
      (d : Row) (fuel page off : ℕ) (bs : List ℕ)
      → 0 < page
      → length bs ≤ fuel
      → Ends (write_pages transport d fuel page off bs)
  unfolding write_pages
  write_pages-Ends d zero page off [] p h = give-Ends tt
  write_pages-Ends d (suc fuel) page off [] p h = give-Ends tt
  write_pages-Ends d zero page off (b ∷ rest) p h = absurd (omega arith)
  write_pages-Ends d (suc fuel) page off (b ∷ rest) p h =
      bind-Ends (write_page-Ends d off (page_buffer page (take page (b ∷ rest)))) λ _.
        write_pages-Ends d fuel page (off + page) (drop page (b ∷ rest)) p
          (omega (arith, length-drop page (b ∷ rest)))

  verify_loop-Ends :
      (d : Row) (fuel off : ℕ) (bs : List ℕ)
      → length bs ≤ fuel
      → Ends (verify_loop transport d fuel off bs)
  unfolding verify_loop
  verify_loop-Ends d zero off [] h = give-Ends none
  verify_loop-Ends d (suc fuel) off [] h = give-Ends none
  verify_loop-Ends d zero off (b ∷ rest) h = absurd (omega arith)
  verify_loop-Ends d (suc fuel) off (b ∷ rest) h =
      let bytes = b ∷ rest in
      let chunk = if ltb (length bytes) updi_read_chunk then length bytes else updi_read_chunk in
      let less = chunk_left fuel (length rest) h in
      bind-Ends (on_link-Ends (read-Ends transport ((d.flash_address + off) % 2 ^ 32) chunk)) λ rb.
        unless_found-Ends (first_mismatch off rb (take chunk bytes)) (
          verify_loop-Ends d fuel (off + chunk) (drop chunk bytes)
            (omega (arith, length-drop chunk bytes)))

  read_loop-Ends :
      (d : Row) (fuel off n : ℕ) (acc : List ℕ)
      → n ≤ fuel
      → Ends (read_loop transport d fuel off n acc)
  unfolding read_loop
  read_loop-Ends d zero off zero acc h = give-Ends acc
  read_loop-Ends d (suc fuel) off zero acc h = give-Ends acc
  read_loop-Ends d zero off (suc n) acc h = absurd (omega arith)
  read_loop-Ends d (suc fuel) off (suc n) acc h =
      let chunk = if ltb (suc n) updi_read_chunk then suc n else updi_read_chunk in
      bind-Ends (on_link-Ends (read-Ends transport ((d.flash_address + off) % 2 ^ 32) chunk))
        λ bs. read_loop-Ends d fuel (off + chunk) (suc n - chunk) (acc ++ bs) (chunk_left fuel n h)

  fuses_from-Ends : (index n : ℕ) → Ends (fuses_from transport index n)
  unfolding fuses_from
  fuses_from-Ends index zero = give-Ends []
  fuses_from-Ends index (suc n) =
      bind-Ends
        (on_nvm-Ends (λ row. NvmMemory.read_fuse transport row (index % 256))
          (λ row. read_fuse-Ends transport row (index % 256)))
        λ b. bind-Ends (fuses_from-Ends (index + 1) n) λ rest. give-Ends (b ∷ rest)

  erase_with-Ends : (o : Option Row) → Ends (erase_with transport o)
  unfolding erase_with
  erase_with-Ends none = fail-Ends Status.param (λ h. cc)
  erase_with-Ends (some d) =
      on_nvm-Ends (NvmMemory.chip_erase transport) (λ row. chip_erase-Ends transport row)

  write_flash-Ends : (bs : List ℕ) → Ends (write_flash transport bs)
  unfolding write_flash
  write_flash-Ends bs = bind-Ends connected_device-Ends λ d.
      guard-Ends (d.flash_page_size == 0 || ltb updi_max_page d.flash_page_size) Status.param
        (λ h. cc)
        (λ passed.
          let nonempty : 0 < d.flash_page_size = grind arith in
          write_pages-Ends d (length bs) d.flash_page_size 0 bs nonempty (omega arith))

  verify_flash-Ends : (bs : List ℕ) → Ends (verify_flash transport bs)
  unfolding verify_flash
  verify_flash-Ends bs =
      bind-Ends connected_device-Ends λ d. verify_loop-Ends d (length bs) 0 bs (omega arith)

  read_flash-Ends : (n : ℕ) → Ends (read_flash transport n)
  unfolding read_flash
  read_flash-Ends n = bind-Ends connected_device-Ends λ d. read_loop-Ends d n 0 n [] (omega arith)

  read_fuses-Ends : (n : ℕ) → Ends (read_fuses transport n)
  unfolding read_fuses
  read_fuses-Ends n =
      bind-Ends connected_device-Ends
        λ d. fuses_from-Ends 0 (if ltb d.fuses_size n then d.fuses_size else n)

  write_one_fuse-Ends : (index v : ℕ) → Ends (write_fuse transport index v)
  unfolding write_fuse
  write_one_fuse-Ends index v = bind-Ends connected_device-Ends λ _.
      on_nvm-Ends (λ row. NvmMemory.write_fuse transport row index v)
        (λ row. write_fuse-Ends transport row index v)

  erase_all-Ends : Ends (chip_erase transport)
  unfolding chip_erase
  erase_all-Ends = record { ends = λ s. (erase_with-Ends s.device).ends s }

  -- Over any transport and from every state of a session, connected or not, the loops of
  -- `chip_erase`, `write_flash`, `verify_flash`, `read_flash`, `read_fuses` and `write_fuse` are never
  -- cut short: each call, whatever the target answers, ends with its outputs or with a status of the
  -- code or at a NULL device, and never for want of fuel.
  pub memory_calls-Ends :
      (bs : List ℕ) (n index v : ℕ)
      → Ends (chip_erase transport)
        × Ends (write_flash transport bs)
        × Ends (verify_flash transport bs)
        × Ends (read_flash transport n)
        × Ends (read_fuses transport n)
        × Ends (write_fuse transport index v)
  memory_calls-Ends bs n index v = (
    erase_all-Ends,
    write_flash-Ends bs,
    verify_flash-Ends bs,
    read_flash-Ends n,
    read_fuses-Ends n,
    write_one_fuse-Ends index v,
  )
