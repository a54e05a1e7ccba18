-- ===== src/Port/Session/Keeps.antt =====
-- What the calls of updi/updi_session.c keep of a session's state.
use updi_programmer.Prelude.{
  ℕ, zero, suc, ◌+◌, ◌-◌, ◌%◌, ◌^◌, refl, false, Option, none, some, List, [], ◌∷◌, ◌++◌, ltb, ◌==◌,
  ◌||◌, if◌then◌else◌,
}
use updi_programmer.Prelude.Lists.{length, take, drop}
use updi_programmer.Devices.Table.{Row}
use updi_programmer.Port.Call.{Call, Status, give, fail, fail_if, regardless, ◌>>=◌}
use updi_programmer.Port.Transport.{Transport}
use updi_programmer.Port.Link.{set_address_size, activate}
use updi_programmer.Port.Nvm.{SibInfo, read_sib_info, enter_progmode, read_signature}
use updi_programmer.Port.Nvm.Memory as NvmMemory
use updi_programmer.Port.Device.{find_by_id, id_from_sig}
use updi_programmer.Port.Session.{
  UpdiSession, on_link, on_nvm, modify, connected_device, page_buffer, first_mismatch, all_ff,
  erase_with, identify, open_device, connect, disconnect, chip_erase, write_page, write_pages,
  write_flash, verify_loop, verify_flash, read_loop, read_flash, fuses_from, read_fuses, write_fuse,
  updi_max_page, updi_read_chunk,
}
use updi_programmer.Port.Session.Consistent.{
  Consistent, Unconnected, Keeps, Unconnected-Consistent, bind_lem, bind-Keeps, on_link-Keeps,
  on_nvm-Keeps, on_link-Unconnected, if-Keeps, connected_device-Keeps, fail_if-Keeps,
  unless_found-Keeps, adopt_lem,
}

module _ {S : Type 0} (transport : Transport S) where
  write_page-Keeps : (d : Row) (off : ℕ) (bs : List ℕ) → Keeps (write_page transport d off bs)
  unfolding write_page give
  write_page-Keeps d off bs =
      if-Keeps (all_ff bs) (give tt)
        (on_nvm
          λ row. NvmMemory.write_flash_page transport row ((d.flash_address + off) % 2 ^ 32) bs)
        (λ s c. c)
        (on_nvm-Keeps
          λ row. NvmMemory.write_flash_page transport row ((d.flash_address + off) % 2 ^ 32) bs)

  write_pages-Keeps :
      (d : Row) (fuel page off : ℕ) (bs : List ℕ) → Keeps (write_pages transport d fuel page off bs)
  unfolding write_pages give fail
  write_pages-Keeps d zero page off [] = λ s c. c
  write_pages-Keeps d (suc fuel) page off [] = λ s c. c
  write_pages-Keeps d zero page off (b ∷ rest) = λ s c. c
  write_pages-Keeps d (suc fuel) page off (b ∷ rest) =
      bind-Keeps (write_page transport d off (page_buffer page (take page (b ∷ rest)))) _
        (write_page-Keeps d off (page_buffer page (take page (b ∷ rest))))
        (λ u. write_pages-Keeps d fuel page (off + page) (drop page (b ∷ rest)))

  verify_loop-Keeps :
      (d : Row) (fuel off : ℕ) (bs : List ℕ) → Keeps (verify_loop transport d fuel off bs)
  unfolding verify_loop give fail
  verify_loop-Keeps d zero off [] = λ s c. c
  verify_loop-Keeps d (suc fuel) off [] = λ s c. c
  verify_loop-Keeps d zero off (b ∷ rest) = λ s c. c
  verify_loop-Keeps d (suc fuel) off (b ∷ rest) =
      let bytes = b ∷ rest in
      let chunk = if ltb (length bytes) updi_read_chunk then length bytes else updi_read_chunk in
      bind-Keeps (on_link (NvmMemory.read transport ((d.flash_address + off) % 2 ^ 32) chunk)) _
        (on_link-Keeps (NvmMemory.read transport ((d.flash_address + off) % 2 ^ 32) chunk))
        (λ rb.
          unless_found-Keeps (first_mismatch off rb (take chunk bytes)) _
            (verify_loop-Keeps d fuel (off + chunk) (drop chunk bytes)))

  read_loop-Keeps :
      (d : Row) (fuel off n : ℕ) (acc : List ℕ) → Keeps (read_loop transport d fuel off n acc)
  unfolding read_loop give fail
  read_loop-Keeps d zero off zero acc = λ s c. c
  read_loop-Keeps d (suc fuel) off zero acc = λ s c. c
  read_loop-Keeps d zero off (suc n) acc = λ s c. c
  read_loop-Keeps d (suc fuel) off (suc n) acc =
      let chunk = if ltb (suc n) updi_read_chunk then suc n else updi_read_chunk in
      bind-Keeps (on_link (NvmMemory.read transport ((d.flash_address + off) % 2 ^ 32) chunk)) _
        (on_link-Keeps (NvmMemory.read transport ((d.flash_address + off) % 2 ^ 32) chunk))
        (λ bytes. read_loop-Keeps d fuel (off + chunk) (suc n - chunk) (acc ++ bytes))

  fuses_from-Keeps : (index n : ℕ) → Keeps (fuses_from transport index n)
  unfolding fuses_from give
  fuses_from-Keeps index zero = λ s c. c
  fuses_from-Keeps index (suc n) =
      bind-Keeps (on_nvm (λ row. NvmMemory.read_fuse transport row (index % 256))) _
        (on_nvm-Keeps (λ row. NvmMemory.read_fuse transport row (index % 256)))
        (λ b.
          bind-Keeps (fuses_from transport (index + 1) n) _ (fuses_from-Keeps (index + 1) n)
            (λ rest s c. c))

  erase_with-Keeps : (o : Option Row) → Keeps (erase_with transport o)
  unfolding erase_with fail
  erase_with-Keeps none = λ s c. c
  erase_with-Keeps (some d) = on_nvm-Keeps (NvmMemory.chip_erase transport)

  pub write_flash-Keeps : (bs : List ℕ) → Keeps (write_flash transport bs)
  unfolding write_flash
  write_flash-Keeps bs = bind-Keeps connected_device _ connected_device-Keeps λ d.
      bind-Keeps
        (fail_if (d.flash_page_size == 0 || ltb updi_max_page d.flash_page_size) Status.param) _
        (fail_if-Keeps (d.flash_page_size == 0 || ltb updi_max_page d.flash_page_size) Status.param)
        (λ u. write_pages-Keeps d (length bs) d.flash_page_size 0 bs)

  pub verify_flash-Keeps : (bs : List ℕ) → Keeps (verify_flash transport bs)
  unfolding verify_flash
  verify_flash-Keeps bs =
      bind-Keeps connected_device _ connected_device-Keeps
        (λ d. verify_loop-Keeps d (length bs) 0 bs)

  pub read_flash-Keeps : (n : ℕ) → Keeps (read_flash transport n)
  unfolding read_flash
  read_flash-Keeps n =
      bind-Keeps connected_device _ connected_device-Keeps (λ d. read_loop-Keeps d n 0 n [])

  pub read_fuses-Keeps : (n : ℕ) → Keeps (read_fuses transport n)
  unfolding read_fuses
  read_fuses-Keeps n =
      bind-Keeps connected_device _ connected_device-Keeps
        (λ d. fuses_from-Keeps 0 (if ltb d.fuses_size n then d.fuses_size else n))

  pub write_fuse-Keeps : (index value : ℕ) → Keeps (write_fuse transport index value)
  unfolding write_fuse
  write_fuse-Keeps index value =
      bind-Keeps connected_device _ connected_device-Keeps
        (λ d. on_nvm-Keeps (λ row. NvmMemory.write_fuse transport row index value))

  pub chip_erase-Keeps : Keeps (chip_erase transport)
  unfolding chip_erase
  chip_erase-Keeps s c = erase_with-Keeps s.device s c

  pub disconnect-Keeps : Keeps (disconnect transport)
  unfolding disconnect regardless modify on_link
  disconnect-Keeps s c = Unconnected-Consistent (disconnect transport s).1 refl

  -- from an unconnected state, the call ends in a consistent one
  abbrev Settles : Call (UpdiSession S) Unit → Type 0
  Settles m = (s : UpdiSession S) → Unconnected s → Consistent (m s).1

  quiet_bind :
      {A : Type 0} (m : Call (UpdiSession S) A) (k : A → Call (UpdiSession S) Unit)
      → ((s : UpdiSession S) → Unconnected s → Unconnected (m s).1)
      → ((a : A) → Settles (k a))
      → Settles (m >>= k)
  quiet_bind m k = bind_lem Unconnected Consistent Unconnected-Consistent m k

  identify-Settles : Settles (identify transport)
  unfolding identify modify
  identify-Settles =
      quiet_bind (on_link (read_signature transport none)) _
        (on_link-Unconnected (read_signature transport none))
        (λ sig s q. adopt_lem (find_by_id (id_from_sig sig)) (record s { sig = sig }) q)

  open_device-Settles : (sib : SibInfo) → Settles (open_device transport sib)
  unfolding open_device modify
  open_device-Settles sib s q =
      quiet_bind (on_link (enter_progmode transport)) (λ u. identify transport)
        (on_link-Unconnected (enter_progmode transport)) (λ u. identify-Settles)
        (record s {
          sib = sib;
          link = set_address_size (if sib.nvm_version == 0 then 2 else 3) s.link;
          nvm_device = none;
        })
        q

  pub connect-Keeps : Keeps (connect transport)
  unfolding connect modify
  connect-Keeps s c =
      quiet_bind (on_link (activate transport))
        (λ u. on_link (read_sib_info transport) >>= open_device transport)
        (on_link-Unconnected (activate transport))
        (λ u.
          quiet_bind (on_link (read_sib_info transport)) (open_device transport)
            (on_link-Unconnected (read_sib_info transport)) open_device-Settles)
        (record s { connected = false; device = none }) refl
