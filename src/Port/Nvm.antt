-- ===== src/Port/Nvm.antt =====
-- Programming of the nonvolatile memories, updi/updi_nvm.c: reset, keys and the programming mode, and
-- the NVM controllers P:0 and P:3 behind one table of constants.
pub mod Memory
use updi_programmer.Prelude.{
  ℕ, zero, suc, ◌+◌, ◌-◌, ◌*◌, ◌/◌, ◌%◌, ◌^◌, Bool, true, false, not, ◌&&◌, ◌||◌, Option, none,
  some, List, [], ◌∷◌, bit_or, ltb, leb, ◌==◌, if◌then◌else◌,
}
use updi_programmer.Prelude.Lists.{length, take, get_or}
use updi_programmer.Constants.{
  updi_asi_reset_req, updi_reset_req_value, updi_asi_sys_status, updi_asi_sys_status_nvmprog,
  updi_asi_sys_status_lockstatus, updi_asi_key_status, updi_asi_key_status_nvmprog,
  updi_asi_key_status_chiperase, updi_cs_ctrlb, updi_ctrlb_updidis_bit, updi_ctrlb_ccdetdis_bit,
  updi_key_64, updi_key_nvm, updi_key_chiperase,
}
use updi_programmer.Nvm.Controller.{has_flags}
use updi_programmer.Devices.Table.{Row, Variant, updi_nvm_variant_p0, updi_nvm_variant_p3}
use updi_programmer.Port.Call.{
  Call, Outcome, done, failed, Status, give, fail, fail_if, outcome_of, settle, regardless, ◌>>=◌,
  ◌>>◌,
}
use updi_programmer.Port.Transport.{Transport}
use updi_programmer.Port.Link.{UpdiLink, ldcs, stcs, ld_byte, st_byte, millis}
use updi_programmer.Port.Link.Block.{key, read_sib}
use updi_programmer.Port.Link.Data.{read_data}

abbrev pub nvm_max_poll_iters : ℕ
nvm_max_poll_iters = 200000

pub record NvmVariantDesc : Type 0 where
  pub reg_ctrla : ℕ
  pub reg_status : ℕ
  pub reg_data : ℕ
  pub reg_addr : ℕ
  pub cmd_chip_erase : ℕ
  pub cmd_page_buffer_clear : ℕ
  pub cmd_write_page : ℕ
  pub cmd_erase_page : ℕ
  pub cmd_write_fuse : ℕ
  pub cmd_eeprom_buffer_clear : ℕ
  pub cmd_eeprom_erase_write : ℕ
  pub cmd_nocmd : ℕ
  pub status_wrerr_mask : ℕ
  pub status_busy_mask : ℕ
  pub clear_cmd_after : Bool
  pub fuse_via_eeprom : Bool

abbrev pub nvm_desc_p0 : NvmVariantDesc
nvm_desc_p0 = record {
  reg_ctrla = 0x00;
  reg_status = 0x02;
  reg_data = 0x06;
  reg_addr = 0x08;
  cmd_chip_erase = 0x05;
  cmd_page_buffer_clear = 0x04;
  cmd_write_page = 0x01;
  cmd_erase_page = 0x02;
  cmd_write_fuse = 0x07;
  cmd_eeprom_buffer_clear = 0x00;
  cmd_eeprom_erase_write = 0x00;
  cmd_nocmd = 0x00;
  status_wrerr_mask = 0x04;
  status_busy_mask = 0x03;
  clear_cmd_after = false;
  fuse_via_eeprom = false;
}

abbrev nvm_desc_p3 : NvmVariantDesc
nvm_desc_p3 = record {
  reg_ctrla = 0x00;
  reg_status = 0x06;
  reg_data = 0x08;
  reg_addr = 0x0C;
  cmd_chip_erase = 0x20;
  cmd_page_buffer_clear = 0x0F;
  cmd_write_page = 0x04;
  cmd_erase_page = 0x08;
  cmd_write_fuse = 0xFF;
  cmd_eeprom_buffer_clear = 0x1F;
  cmd_eeprom_erase_write = 0x15;
  cmd_nocmd = 0x00;
  status_wrerr_mask = 0x70;
  status_busy_mask = 0x03;
  clear_cmd_after = true;
  fuse_via_eeprom = true;
}

unfoldable pub variant_desc : Variant → NvmVariantDesc
variant_desc updi_nvm_variant_p3 = nvm_desc_p3
variant_desc updi_nvm_variant_p0 = nvm_desc_p0

abbrev pub nvm_desc : Row → NvmVariantDesc
nvm_desc device = variant_desc device.nvm_variant

-- `UpdiSibInfo`
pub record SibInfo : Type 0 where
  pub family : List ℕ
  pub nvm_version : ℕ

-- the first `n` bytes, less the blanks and zeros at their end
unfoldable pub family_of : ℕ → List ℕ → List ℕ
family_of zero sib = []
family_of (suc n) sib =
    let c = get_or sib n 0 in
    let shorter = family_of n sib in if c == b' ' || c == 0 then shorter else take (suc n) sib

-- `sib[10]` as a digit
abbrev pub version_of : List ℕ → ℕ
version_of sib = let d = get_or sib 10 0 in if leb b'0' d && leb d b'9' then d - b'0' else 0xFF

-- a status register's test, false where the read fails
unfoldable pub flag_of : ℕ → Outcome ℕ → Bool
flag_of bit (done status) = has_flags status (2 ^ bit)
flag_of bit (failed _) = false

-- one poll of `wait_unlocked`: a status that was read, with the lock bit clear
unfoldable pub seen_unlocked : Outcome ℕ → Bool
seen_unlocked (done status) = not (has_flags status (2 ^ updi_asi_sys_status_lockstatus))
seen_unlocked (failed _) = false

-- `(uint32_t)(now - start) >= timeout_ms`
abbrev pub has_expired : ℕ → ℕ → ℕ → Bool
has_expired start now timeout_ms = leb timeout_ms ((now + 2 ^ 32 - start) % 2 ^ 32)

abbrev sigrow_default_address : ℕ
sigrow_default_address = 0x1100

module _ {S : Type 0} (transport : Transport S) where
  unfoldable pub sys_flag : ℕ → Call (UpdiLink S) Bool
  unfolding ldcs flag_of
  sys_flag bit link =
      let r = ldcs transport updi_asi_sys_status link in (done (flag_of bit r.0), r.1)

  unfoldable pub in_progmode : Call (UpdiLink S) Bool
  unfolding sys_flag
  in_progmode = sys_flag updi_asi_sys_status_nvmprog

  unfoldable pub is_locked : Call (UpdiLink S) Bool
  unfolding sys_flag
  is_locked = sys_flag updi_asi_sys_status_lockstatus

  unfoldable pub nvm_reset : Bool → Call (UpdiLink S) Unit
  nvm_reset apply = stcs transport updi_asi_reset_req (if apply then updi_reset_req_value else 0x00)

  -- a round of the poll whose status was not seen unlocked
  unfoldable unless_unlocked : Bool → Call (UpdiLink S) Bool → Call (UpdiLink S) Bool
  unfolding give
  unless_unlocked true next = give true
  unless_unlocked false next = next

  -- The rounds that are left of the poll's backstop are the fuel.
  unfoldable pub unlocked_loop : ℕ → ℕ → ℕ → Call (UpdiLink S) Bool
  unfolding ◌>>=◌ ldcs seen_unlocked outcome_of unless_unlocked
  unlocked_loop zero start timeout_ms = give false
  unlocked_loop (suc iters) start timeout_ms =
      outcome_of (ldcs transport updi_asi_sys_status) >>= λ r. unless_unlocked (seen_unlocked r) (
        millis transport >>= λ now. elim (has_expired start now timeout_ms) [
          | true ↦ give false
          | false ↦ unlocked_loop iters start timeout_ms
        ])

  unfoldable pub wait_unlocked : ℕ → Call (UpdiLink S) Bool
  unfolding ◌>>=◌ millis
  wait_unlocked timeout_ms = do
    start ← millis transport
    unlocked_loop nvm_max_poll_iters start timeout_ms

  -- the key goes in, and its bit of the key status must come up
  unfoldable pub insert_key : List ℕ → ℕ → Call (UpdiLink S) Unit
  unfolding ◌>>=◌ fail_if
  insert_key bytes bit = do
    key transport updi_key_64 bytes
    key_status ← ldcs transport updi_asi_key_status
    fail_if (not (has_flags key_status (2 ^ bit))) Status.protocol

  unfoldable pub toggle_reset : Call (UpdiLink S) Unit → Call (UpdiLink S) Unit
  unfolding regardless
  toggle_reset next = regardless (nvm_reset true) (regardless (nvm_reset false) next)

  unfoldable pub enter_progmode : Call (UpdiLink S) Unit
  unfolding ◌>>=◌ nvm_reset toggle_reset fail_if
  enter_progmode = do
    already ← in_progmode
    if already then give tt else do
      nvm_reset true
      insert_key updi_key_nvm updi_asi_key_status_nvmprog
      toggle_reset do
        unlocked ← wait_unlocked 100
        fail_if (not unlocked) Status.locked
        entered ← in_progmode
        fail_if (not entered) Status.protocol

  unfoldable pub leave_progmode : Call (UpdiLink S) Unit
  unfolding toggle_reset
  leave_progmode = toggle_reset (
      stcs transport updi_cs_ctrlb
        (bit_or (2 ^ updi_ctrlb_updidis_bit) (2 ^ updi_ctrlb_ccdetdis_bit)))

  unfoldable pub unlock : Call (UpdiLink S) Unit
  unfolding ◌>>=◌ insert_key toggle_reset fail_if
  unlock = do
    insert_key updi_key_chiperase updi_asi_key_status_chiperase
    toggle_reset do unlocked ← wait_unlocked 500; fail_if (not unlocked) Status.nvm

  -- at least the first 11 bytes must come
  unfoldable pub read_sib_info : Call (UpdiLink S) SibInfo
  unfolding ◌>>=◌ fail_if
  read_sib_info = do
    sib ← read_sib transport 16
    fail_if (ltb (length sib) 11) Status.protocol
    give (record { family = family_of 7 sib; nvm_version = version_of sib })

  unfoldable pub read_signature : Option Row → Call (UpdiLink S) (List ℕ)
  read_signature none = read_data transport sigrow_default_address 3
  read_signature (some device) = read_data transport device.sigrow_address 3

  unfoldable read_revision : Row → Call (UpdiLink S) ℕ
  read_revision device = ld_byte transport ((device.syscfg_base + 1) % 2 ^ 32)
