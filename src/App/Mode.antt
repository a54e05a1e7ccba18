-- ===== src/App/Mode.antt =====
-- The methods of `UpdiApplication` (reference/pymcuprog/serialupdi/application.py) that reach the
-- device through `self.readwrite`: reset, keys, programming mode and the locked user row.
use updi_programmer.Prelude.{ℕ, zero, suc, ◌^◌, Bool, true, false, not, List, bit_or, if◌then◌else◌}
use updi_programmer.Exec.{
  Exec, updi_error, locked_error, recursion_error, pure, raise, raise_if, ◌>>=◌, ◌>>◌,
}
use updi_programmer.Serial.{Clock}
use updi_programmer.ReadWrite.{ReadWrite}
use updi_programmer.Timeout.{poll_until}
use updi_programmer.Nvm.Controller.{has_flags}
use updi_programmer.Constants.{
  updi_asi_reset_req, updi_reset_req_value, updi_asi_sys_status, updi_asi_sys_status_nvmprog,
  updi_asi_sys_status_lockstatus, updi_asi_sys_status_urowprog, updi_asi_key_status,
  updi_asi_key_status_chiperase, updi_asi_key_status_nvmprog, updi_asi_key_status_urowwrite,
  updi_asi_sys_ctrla, updi_asi_sys_ctrla_urow_final, updi_ctrlb_ccdetdis_bit,
  updi_ctrlb_updidis_bit, updi_cs_ctrlb, updi_key_64, updi_key_nvm, updi_key_chiperase,
  updi_key_urow,
}

module _ {S : Type 0} (readwrite : ReadWrite S) where
  open readwrite use {read_cs, write_cs, write_key}

  unfoldable pub read_data : ℕ → ℕ → Exec S (List ℕ)
  read_data address size = readwrite.read_data address size

  unfoldable pub read_data_words : ℕ → ℕ → Exec S (List ℕ)
  read_data_words address words = readwrite.read_data_words address words

  unfoldable pub write_data_words : ℕ → List ℕ → Exec S Unit
  write_data_words address bytes = readwrite.write_data_words address bytes

  -- `write_data` calls itself; `depth` is what is left of the interpreter's recursion limit.
  unfoldable pub write_data : ℕ → ℕ → List ℕ → Exec S Unit
  write_data zero address bytes = raise recursion_error
  write_data (suc depth) address bytes = write_data depth address bytes

  unfoldable pub reset : Bool → Exec S Unit
  reset true = write_cs updi_asi_reset_req updi_reset_req_value
  reset false = write_cs updi_asi_reset_req 0x00

  unfoldable pub toggle_reset : Exec S Unit
  unfolding ◌>>=◌ reset
  toggle_reset = do reset true; reset false

  unfoldable pub in_prog_mode : Exec S Bool
  unfolding ◌>>=◌
  in_prog_mode = do
    status ← read_cs updi_asi_sys_status
    pure (has_flags status (2 ^ updi_asi_sys_status_nvmprog))

  -- the key goes in, and its bit of the key status must come up
  unfoldable pub insert_key : List ℕ → ℕ → Exec S Unit
  unfolding ◌>>=◌ raise_if
  insert_key key bit = do
    write_key updi_key_64 key
    key_status ← read_cs updi_asi_key_status
    raise_if (not (has_flags key_status (2 ^ bit))) updi_error

  unfoldable pub leave_progmode : Exec S Unit
  unfolding ◌>>=◌ toggle_reset
  leave_progmode = do
    toggle_reset
    write_cs updi_cs_ctrlb (bit_or (2 ^ updi_ctrlb_updidis_bit) (2 ^ updi_ctrlb_ccdetdis_bit))

module _ {S : Type 0} (readwrite : ReadWrite S) (clock : Clock S) (fuel : ℕ) where
  open readwrite use {read_cs, write_cs}

  unfoldable pub wait_unlocked : ℕ → Exec S Bool
  unfolding ◌>>=◌ poll_until
  wait_unlocked timeout_ms = poll_until clock fuel timeout_ms do
    status ← read_cs updi_asi_sys_status
    pure (not (has_flags status (2 ^ updi_asi_sys_status_lockstatus)))

  unfoldable pub wait_urow_prog : ℕ → Bool → Exec S Bool
  unfolding ◌>>=◌ poll_until
  wait_urow_prog timeout_ms wait_for_high = poll_until clock fuel timeout_ms do
    status ← read_cs updi_asi_sys_status
    let high = has_flags status (2 ^ updi_asi_sys_status_urowprog)
    pure (if wait_for_high then high else not high)

  unfoldable pub unlock : Exec S Unit
  unfolding ◌>>=◌ insert_key toggle_reset wait_unlocked raise_if
  unlock = do
    insert_key readwrite updi_key_chiperase updi_asi_key_status_chiperase
    toggle_reset readwrite
    unlocked ← wait_unlocked 500
    raise_if (not unlocked) updi_error

  unfoldable pub write_user_row_locked_device : ℕ → List ℕ → Exec S Unit
  unfolding ◌>>=◌ insert_key toggle_reset wait_urow_prog raise_if
  write_user_row_locked_device address bytes = do
    insert_key readwrite updi_key_urow updi_asi_key_status_urowwrite
    toggle_reset readwrite
    entered ← wait_urow_prog 500 true
    raise_if (not entered) updi_error
    readwrite.write_data address bytes
    write_cs updi_asi_sys_ctrla
        (bit_or (2 ^ updi_asi_sys_ctrla_urow_final) (2 ^ updi_ctrlb_ccdetdis_bit))
    exited ← wait_urow_prog 500 false
    if exited then pure tt else do toggle_reset readwrite; raise updi_error
    write_cs updi_asi_key_status
        (bit_or (2 ^ updi_asi_key_status_urowwrite) (2 ^ updi_ctrlb_ccdetdis_bit))
    toggle_reset readwrite

  -- It returns true on every path that does not raise.
  unfoldable pub enter_progmode : Exec S Bool
  unfolding ◌>>=◌ in_prog_mode reset insert_key toggle_reset wait_unlocked raise_if
  enter_progmode = do
    already ← in_prog_mode readwrite
    if already then pure true else do
      reset readwrite true
      insert_key readwrite updi_key_nvm updi_asi_key_status_nvmprog
      toggle_reset readwrite
      unlocked ← wait_unlocked 100
      raise_if (not unlocked) locked_error
      entered ← in_prog_mode readwrite
      raise_if (not entered) updi_error
      pure true
