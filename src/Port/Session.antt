-- ===== src/Port/Session.antt =====
-- The programming session of updi/updi_session.c. Its progress callbacks only report, and are left
-- out, and so is what a read that fails leaves in its buffer.
pub mod Mismatches
pub mod Consistent
pub mod Keeps
pub mod Reached
use updi_programmer.Prelude.{
  ℕ, zero, suc, ◌+◌, ◌-◌, ◌%◌, ◌^◌, Bool, true, false, not, ◌&&◌, ◌||◌, Option, none, some, List,
  [], ◌∷◌, ◌++◌, ltb, ◌==◌, if◌then◌else◌,
}
use updi_programmer.Prelude.Lists.{length, take, drop}
use updi_programmer.Devices.Table.{Row}
use updi_programmer.Port.Call.{
  Call, Outcome, Status, done, failed, give, fail, fail_if, regardless, ◌>>=◌, ◌>>◌,
}
use updi_programmer.Port.Transport.{Transport}
use updi_programmer.Port.Link.{UpdiLink, init, set_address_size, activate}
use updi_programmer.Port.Nvm.{
  SibInfo, read_sib_info, enter_progmode, leave_progmode, read_signature, unlock,
}
use updi_programmer.Port.Nvm.Memory as NvmMemory
use updi_programmer.Port.Device.{find_by_id, id_from_sig}

abbrev pub updi_max_page : ℕ
updi_max_page = 256

abbrev pub updi_read_chunk : ℕ
updi_read_chunk = 256

-- `UpdiSession`; the device of `nvm` stands beside the session's own.
pub record UpdiSession (S : Type 0) : Type 0 where
  pub link : UpdiLink S
  pub nvm_device : Option Row
  pub device : Option Row
  pub sib : SibInfo
  pub sig : List ℕ
  pub connected : Bool

pub record Mismatch : Type 0 where
  pub offset : ℕ
  pub expected : ℕ
  pub actual : ℕ

abbrev pub start : {S : Type 0} → S → UpdiSession S
start world = record {
  link = init world;
  nvm_device = none;
  device = none;
  sib = record { family = []; nvm_version = 0 };
  sig = 0 ∷ 0 ∷ 0 ∷ [];
  connected = false;
}

-- `if(!s->connected || !s->device) return UpdiErrParam;`
unfoldable pub device_of : Option Row → Bool → Outcome Row
device_of (some d) true = done d
device_of _ _ = failed Status.param

module _ {S : Type 0} where
  -- a call on the session's link
  unfoldable pub on_link : {A : Type 0} → Call (UpdiLink S) A → Call (UpdiSession S) A
  on_link m s = let r = m s.link in (r.0, record s { link = r.1 })

  unfoldable pub with_device :
      {A : Type 0} → (Row → Call (UpdiLink S) A) → Option Row → Call (UpdiSession S) A
  unfolding on_link fail
  with_device m none = fail Status.null_device
  with_device m (some d) = on_link (m d)

  -- a call of updi_nvm.c, which follows the device of `nvm` without asking whether it is NULL
  unfoldable pub on_nvm : {A : Type 0} → (Row → Call (UpdiLink S) A) → Call (UpdiSession S) A
  unfolding with_device
  on_nvm m s = with_device m s.nvm_device s

  unfoldable pub modify : (UpdiSession S → UpdiSession S) → Call (UpdiSession S) Unit
  modify f s = (done tt, f s)

  unfoldable pub connected_device : Call (UpdiSession S) Row
  unfolding device_of
  connected_device s = (device_of s.device s.connected, s)

  -- the end of `connect`
  unfoldable pub adopt : Option Row → Call (UpdiSession S) Unit
  unfolding modify fail
  adopt none = fail Status.unsupported
  adopt (some d) = modify (λ s. record s { nvm_device = some d; device = some d; connected = true })

module _ {S : Type 0} where
  -- a mismatch ends the comparison
  unfoldable pub unless_found :
      Option Mismatch
      → Call (UpdiSession S) (Option Mismatch)
      → Call (UpdiSession S) (Option Mismatch)
  unfolding give
  unless_found (some m) next = give (some m)
  unless_found none next = next

unfoldable pub all_ff : List ℕ → Bool
all_ff [] = true
all_ff (b ∷ bs) = b == 0xFF && all_ff bs

-- `n` bytes 0xFF
unfoldable pub fill_ff : ℕ → List ℕ
fill_ff zero = []
fill_ff (suc n) = 0xFF ∷ fill_ff n

-- the page buffer: the chunk, and 0xFF behind it
unfoldable pub page_buffer : ℕ → List ℕ → List ℕ
unfolding fill_ff
page_buffer page chunk = chunk ++ fill_ff (page - length chunk)

-- the first byte read back that differs
unfoldable pub first_mismatch : ℕ → List ℕ → List ℕ → Option Mismatch
first_mismatch offset (a ∷ actual) (e ∷ expected) =
    let rest = first_mismatch (offset + 1) actual expected in
    if a == e then rest else some (record { offset = offset; expected = e; actual = a })
first_mismatch offset _ _ = none

module _ {S : Type 0} (transport : Transport S) where
  -- `connect` from the signature on
  unfoldable pub identify : Call (UpdiSession S) Unit
  unfolding ◌>>=◌ on_link modify adopt
  identify = do
    sig ← on_link (read_signature transport none)
    modify (λ s. record s { sig = sig })
    adopt (find_by_id (id_from_sig sig))

  -- `connect` from the width of the addresses on
  unfoldable pub open_device : SibInfo → Call (UpdiSession S) Unit
  unfolding ◌>>=◌ on_link modify identify
  open_device sib = do
    modify (λ s. record s {
      sib = sib;
      link = set_address_size (if sib.nvm_version == 0 then 2 else 3) s.link;
      nvm_device = none;
    })
    on_link (enter_progmode transport)
    identify

  unfoldable pub connect : Call (UpdiSession S) Unit
  unfolding ◌>>=◌ on_link modify open_device
  connect = do
    modify (λ s. record s { connected = false; device = none })
    on_link (activate transport)
    sib ← on_link (read_sib_info transport)
    open_device sib

  unfoldable pub session_unlock : Call (UpdiSession S) Unit
  unfolding on_link
  session_unlock = on_link (unlock transport)

  unfoldable pub disconnect : Call (UpdiSession S) Unit
  unfolding on_link modify regardless
  disconnect =
      regardless (on_link (leave_progmode transport)) (modify (λ s. record s { connected = false }))

  -- `updi_session_chip_erase` asks for the session's device only
  unfoldable pub erase_with : Option Row → Call (UpdiSession S) Unit
  unfolding on_nvm fail
  erase_with none = fail Status.param
  erase_with (some _) = on_nvm (NvmMemory.chip_erase transport)

  unfoldable pub chip_erase : Call (UpdiSession S) Unit
  unfolding erase_with
  chip_erase s = erase_with s.device s

  -- a page that is all 0xFF is skipped
  unfoldable pub write_page : Row → ℕ → List ℕ → Call (UpdiSession S) Unit
  unfolding on_nvm all_ff give
  write_page d off pagebuf =
      if all_ff pagebuf
      then give tt
      else on_nvm
          λ row. NvmMemory.write_flash_page transport row ((d.flash_address + off) % 2 ^ 32) pagebuf

  -- `for(off = 0; off < len; off += page)`, on fuel
  unfoldable pub write_pages : Row → ℕ → ℕ → ℕ → List ℕ → Call (UpdiSession S) Unit
  unfolding ◌>>=◌
  write_pages d fuel page off [] = give tt
  write_pages d zero page off (b ∷ rest) = fail Status.out_of_fuel
  write_pages d (suc fuel) page off (b ∷ rest) = do
    let bytes = b ∷ rest
    write_page d off (page_buffer page (take page bytes))
    write_pages d fuel page (off + page) (drop page bytes)

  -- A page is not empty, so the length is fuel enough.
  unfoldable pub write_flash : List ℕ → Call (UpdiSession S) Unit
  unfolding ◌>>=◌ connected_device fail_if write_pages
  write_flash bytes = do
    d ← connected_device
    fail_if (d.flash_page_size == 0 || ltb updi_max_page d.flash_page_size) Status.param
    write_pages d (length bytes) d.flash_page_size 0 bytes

  unfoldable pub verify_loop : Row → ℕ → ℕ → List ℕ → Call (UpdiSession S) (Option Mismatch)
  unfolding ◌>>=◌ on_link first_mismatch unless_found
  verify_loop d fuel off [] = give none
  verify_loop d zero off (b ∷ rest) = fail Status.out_of_fuel
  verify_loop d (suc fuel) off (b ∷ rest) = do
    let bytes = b ∷ rest
    let chunk = if ltb (length bytes) updi_read_chunk then length bytes else updi_read_chunk
    rb ← on_link (NvmMemory.read transport ((d.flash_address + off) % 2 ^ 32) chunk)
    unless_found (first_mismatch off rb (take chunk bytes))
        (verify_loop d fuel (off + chunk) (drop chunk bytes))

  -- The mismatch stands for `UpdiErrVerify`, and none for `UpdiOk`.
  unfoldable pub verify_flash : List ℕ → Call (UpdiSession S) (Option Mismatch)
  unfolding ◌>>=◌ connected_device verify_loop
  verify_flash bytes = do d ← connected_device; verify_loop d (length bytes) 0 bytes

  unfoldable pub read_loop : Row → ℕ → ℕ → ℕ → List ℕ → Call (UpdiSession S) (List ℕ)
  unfolding ◌>>=◌ on_link
  read_loop d fuel off zero acc = give acc
  read_loop d zero off (suc n) acc = fail Status.out_of_fuel
  read_loop d (suc fuel) off (suc n) acc = do
    let left = suc n
    let chunk = if ltb left updi_read_chunk then left else updi_read_chunk
    bytes ← on_link (NvmMemory.read transport ((d.flash_address + off) % 2 ^ 32) chunk)
    read_loop d fuel (off + chunk) (left - chunk) (acc ++ bytes)

  unfoldable pub read_flash : ℕ → Call (UpdiSession S) (List ℕ)
  unfolding ◌>>=◌ connected_device read_loop
  read_flash len = do d ← connected_device; read_loop d len 0 len []

  unfoldable pub fuses_from : ℕ → ℕ → Call (UpdiSession S) (List ℕ)
  unfolding ◌>>=◌ on_nvm
  fuses_from index zero = give []
  fuses_from index (suc n) = do
    b ← on_nvm (λ row. NvmMemory.read_fuse transport row (index % 256))
    rest ← fuses_from (index + 1) n
    give (b ∷ rest)

  -- no more than the device has
  unfoldable pub read_fuses : ℕ → Call (UpdiSession S) (List ℕ)
  unfolding ◌>>=◌ connected_device fuses_from
  read_fuses count = do
    d ← connected_device
    fuses_from 0 (if ltb d.fuses_size count then d.fuses_size else count)

  unfoldable pub write_fuse : ℕ → ℕ → Call (UpdiSession S) Unit
  unfolding ◌>>=◌ connected_device on_nvm
  write_fuse index value =
      connected_device >>= λ d. on_nvm λ row. NvmMemory.write_fuse transport row index value
