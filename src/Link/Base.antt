-- ===== src/Link/Base.antt =====
-- `UpdiDatalink` of reference/pymcuprog/serialupdi/link.py: the instructions that carry no
-- address, and the start of a session.
use updi_programmer.Prelude.{
  ℕ, ◌+◌, ◌-◌, ◌*◌, ◌%◌, ◌^◌, Bool, false, not, ◌||◌, List, [], ◌∷◌, reverse, bit_or, ltb, ◌==◌,
  if◌then◌else◌,
}
use updi_programmer.Prelude.Lists.{length, get_or}
use updi_programmer.Exec.{
  Exec, Error, updi_error, protocol_error, index_error, pure, raise, raise_if, try_except, ◌>>=◌,
  ◌>>◌,
}
use updi_programmer.Phys.{Phys}
use updi_programmer.Constants.{
  updi_phy_sync, updi_phy_ack, updi_ldcs, updi_stcs, updi_ld, updi_st, updi_repeat, updi_key,
  updi_ptr_inc, updi_data_8, updi_data_16, updi_repeat_byte, updi_key_key, updi_max_repeat_size,
  updi_cs_statusa, updi_cs_ctrla, updi_cs_ctrlb, updi_ctrla_ibdly_bit, updi_ctrla_rsd_bit,
  updi_ctrlb_ccdetdis_bit,
}

-- The class hierarchy of pymcuprog_errors, as far as the `except` clauses ask.
pub record Exceptions : Type 0 where
  -- is the exception a `PymcuprogSerialUpdiError`
  pub is_updi_error : Error → Bool
  -- is it an `IOError`
  pub is_io_error : Error → Bool

module _ {S : Type 0} (phy : Phys S) where
  -- `len(response) != 1 or response[0] != UPDI_PHY_ACK`
  abbrev pub lacks_ack : List ℕ → Bool
  lacks_ack response = not (length response == 1) || not (get_or response 0 0 == updi_phy_ack)

  -- One byte is received, and it must be an ACK.
  unfoldable pub expect_ack : Exec S Unit
  unfolding ◌>>=◌ raise_if
  expect_ack = do response ← phy.receive 1; raise_if (lacks_ack response) protocol_error

  unfoldable pub ldcs : ℕ → Exec S ℕ
  unfolding ◌>>=◌ raise_if
  ldcs address = do
    phy.send (updi_phy_sync ∷ bit_or updi_ldcs (address % 16) ∷ [])
    response ← phy.receive 1
    raise_if (not (length response == 1)) protocol_error
    pure (get_or response 0 0)

  unfoldable pub stcs : ℕ → ℕ → Exec S Unit
  stcs address value = phy.send (updi_phy_sync ∷ bit_or updi_stcs (address % 16) ∷ value ∷ [])

  unfoldable pub disable_ack : Exec S Unit
  unfolding stcs
  disable_ack = stcs updi_cs_ctrla (bit_or (2 ^ updi_ctrla_ibdly_bit) (2 ^ updi_ctrla_rsd_bit))

  unfoldable pub enable_ack : Exec S Unit
  unfolding stcs
  enable_ack = stcs updi_cs_ctrla (2 ^ updi_ctrla_ibdly_bit)

  unfoldable pub init_session_parameters : Exec S Unit
  unfolding ◌>>=◌ stcs enable_ack
  init_session_parameters = do stcs updi_cs_ctrlb (2 ^ updi_ctrlb_ccdetdis_bit); enable_ack

  unfoldable pub ld_ptr_inc : ℕ → Exec S (List ℕ)
  unfolding ◌>>=◌
  ld_ptr_inc size = do
    phy.send (updi_phy_sync ∷ bit_or (bit_or updi_ld updi_ptr_inc) updi_data_8 ∷ [])
    phy.receive size

  unfoldable pub ld_ptr_inc16 : ℕ → Exec S (List ℕ)
  unfolding ◌>>=◌
  ld_ptr_inc16 words = do
    phy.send (updi_phy_sync ∷ bit_or (bit_or updi_ld updi_ptr_inc) updi_data_16 ∷ [])
    phy.receive (words * 2)

  -- the `while` loop of `st_ptr_inc`, over the bytes that are left
  unfoldable pub st_each : List ℕ → Exec S Unit
  unfolding ◌>>=◌ expect_ack
  st_each [] = pure tt
  st_each (b ∷ rest) = do phy.send (b ∷ []); expect_ack; st_each rest

  -- `data[0]` of an empty list raises before anything is sent.
  unfoldable pub st_ptr_inc : List ℕ → Exec S Unit
  unfolding ◌>>=◌ expect_ack st_each
  st_ptr_inc [] = raise index_error
  st_ptr_inc (b ∷ rest) = do
    phy.send (updi_phy_sync ∷ bit_or (bit_or updi_st updi_ptr_inc) updi_data_8 ∷ b ∷ [])
    expect_ack
    st_each rest

  -- Two bytes are acknowledged; any other number is sent with the ACKs turned off.
  unfoldable pub st_ptr_inc16 : List ℕ → Exec S Unit
  unfolding ◌>>=◌ expect_ack disable_ack enable_ack
  st_ptr_inc16 (b ∷ c ∷ []) = do
    phy.send (updi_phy_sync ∷ bit_or (bit_or updi_st updi_ptr_inc) updi_data_16 ∷ b ∷ c ∷ [])
    expect_ack
  st_ptr_inc16 block = do
    disable_ack
    phy.send (updi_phy_sync ∷ bit_or (bit_or updi_st updi_ptr_inc) updi_data_16 ∷ [])
    phy.send block
    enable_ack

  -- `(repeats - 1) & 0xFF`, which is 0xFF at 0: Python's integers are signed.
  unfoldable pub repeat : ℕ → Exec S Unit
  unfolding ◌>>=◌ raise_if
  repeat repeats = do
    raise_if (ltb updi_max_repeat_size (repeats - 1)) protocol_error
    phy.send (updi_phy_sync ∷ bit_or updi_repeat updi_repeat_byte ∷ ((repeats + 255) % 256) ∷ [])

  unfoldable pub read_sib : Exec S (List ℕ)
  read_sib = phy.sib

  unfoldable pub key : ℕ → List ℕ → Exec S Unit
  unfolding ◌>>=◌ raise_if
  key size bytes = do
    raise_if (not (length bytes == 8 * 2 ^ size)) protocol_error
    phy.send (updi_phy_sync ∷ bit_or (bit_or updi_key updi_key_key) size ∷ [])
    phy.send (reverse bytes)

  unfoldable pub st_data_phase : List ℕ → Exec S Unit
  unfolding ◌>>=◌ expect_ack
  st_data_phase values = do expect_ack; phy.send values; expect_ack

module _ {S : Type 0} (exceptions : Exceptions) (phy : Phys S) where
  unfoldable pub check_datalink : Exec S Bool
  unfolding ◌>>=◌ ldcs try_except
  check_datalink =
      try_except exceptions.is_updi_error
        (do status ← ldcs phy updi_cs_statusa; pure (not (status == 0))) (λ _. pure false)

  unfoldable pub init_datalink : Exec S Unit
  unfolding ◌>>=◌ init_session_parameters check_datalink raise_if
  init_datalink = do
    init_session_parameters phy
    good ← check_datalink
    if good then pure tt else do
      phy.send_double_break
      init_session_parameters phy
      good_now ← check_datalink
      raise_if (not good_now) updi_error
