-- ===== src/Port/Link.antt =====
-- The data link of updi/updi_link.c: the UPDI instructions, with 16-bit or 24-bit addresses.
pub mod Block
pub mod Data
use updi_programmer.Prelude.{
  ℕ, zero, suc, ◌+◌, ◌-◌, ◌*◌, ◌/◌, ◌%◌, ◌^◌, Bool, true, false, not, ◌||◌, Option, none, some,
  List, [], ◌∷◌, ◌++◌, reverse, bit_or, ltb, ◌==◌, if◌then◌else◌,
}
use updi_programmer.Prelude.Lists.{length, get_or}
use updi_programmer.Constants.{
  updi_break, updi_phy_sync, updi_phy_ack, updi_lds, updi_sts, updi_ld, updi_st, updi_ldcs,
  updi_stcs, updi_repeat, updi_repeat_byte, updi_key, updi_key_key, updi_key_sib, updi_ptr_inc,
  updi_ptr_address, updi_address_16, updi_address_24, updi_data_8, updi_data_16, updi_data_24,
  updi_cs_statusa, updi_cs_ctrla, updi_cs_ctrlb, updi_ctrla_ibdly_bit, updi_ctrla_rsd_bit,
  updi_ctrlb_ccdetdis_bit, updi_max_repeat_size, updi_sib_8bytes, updi_sib_16bytes,
  updi_sib_32bytes,
}
use updi_programmer.Port.Call.{
  Call, Outcome, done, failed, Status, give, fail, fail_if, regardless, ◌>>=◌, ◌>>◌,
}
use updi_programmer.Port.Transport.{Transport}

-- `UpdiLink`, with the world of its transport
pub record UpdiLink (S : Type 0) : Type 0 where
  pub world : S
  pub address_bytes : ℕ
  pub timeout_ms : ℕ
  pub ack_enabled : Bool

-- `updi_link_init`
abbrev pub init : {S : Type 0} → S → UpdiLink S
init world = record { world = world; address_bytes = 2; timeout_ms = 300; ack_enabled = true }

abbrev pub set_address_size : {S : Type 0} → ℕ → UpdiLink S → UpdiLink S
set_address_size n link = record link { address_bytes = if n == 3 then 3 else 2 }

-- `put_address`: the bytes of the address, lowest first
abbrev pub put_address : Bool → ℕ → List ℕ
put_address wide address =
    (address % 256) ∷ (address / 256 % 256) ∷ (if wide then (address / 65536 % 256) ∷ [] else [])

module _ {S : Type 0} (transport : Transport S) where
  -- `if(!send_raw(...)) return UpdiErrTransport;`
  unfoldable pub send_raw : List ℕ → Call (UpdiLink S) Unit
  send_raw bytes link =
      let r = transport.send bytes link.world in
      (if r.0 then done tt else failed Status.transport, record link { world = r.1 })

  unfoldable pub recv_raw : ℕ → Call (UpdiLink S) (List ℕ)
  recv_raw len link =
      let r = transport.recv len link.timeout_ms link.world in
      (done r.0, record link { world = r.1 })

  -- the bytes, where as many came as were asked for
  unfoldable pub recv_all : ℕ → Status → Call (UpdiLink S) (List ℕ)
  unfolding ◌>>=◌ recv_raw fail_if
  recv_all len status = do
    response ← recv_raw len
    fail_if (not (length response == len)) status
    give response

  -- `recv_raw(link, &ack, 1) != 1 || ack != UPDI_PHY_ACK`
  unfoldable pub expect_ack : Call (UpdiLink S) Unit
  unfolding ◌>>=◌ recv_raw fail_if
  expect_ack = do
    response ← recv_raw 1
    fail_if (not (length response == 1) || not (get_or response 0 0 == updi_phy_ack)) Status.nack

  -- `ADDR24(link)`
  unfoldable pub addr24 : Call (UpdiLink S) Bool
  addr24 link = (done (link.address_bytes == 3), link)

  unfoldable pub ldcs : ℕ → Call (UpdiLink S) ℕ
  unfolding ◌>>=◌ send_raw recv_all
  ldcs address = do
    send_raw (updi_phy_sync ∷ bit_or updi_ldcs (address % 16) ∷ [])
    response ← recv_all 1 Status.timeout
    give (get_or response 0 0)

  unfoldable pub stcs : ℕ → ℕ → Call (UpdiLink S) Unit
  unfolding send_raw
  stcs address value = send_raw (updi_phy_sync ∷ bit_or updi_stcs (address % 16) ∷ value ∷ [])

  unfoldable pub set_ack : Bool → Call (UpdiLink S) Unit
  set_ack b link = (done tt, record link { ack_enabled = b })

  unfoldable pub enable_ack : Call (UpdiLink S) Unit
  unfolding ◌>>=◌ stcs set_ack
  enable_ack = do stcs updi_cs_ctrla (2 ^ updi_ctrla_ibdly_bit); set_ack true

  unfoldable pub disable_ack : Call (UpdiLink S) Unit
  unfolding ◌>>=◌ stcs set_ack
  disable_ack = do
    stcs updi_cs_ctrla (bit_or (2 ^ updi_ctrla_ibdly_bit) (2 ^ updi_ctrla_rsd_bit))
    set_ack false

  unfoldable pub double_break : Call (UpdiLink S) Unit
  double_break link =
      let world : S = elim transport.double_break [ none ↦ link.world | some f ↦ f link.world ] in
      (done tt, record link { world = world; ack_enabled = true })

  -- 0 without a clock
  unfoldable pub millis : Call (UpdiLink S) ℕ
  millis link = elim transport.millis [
    | none ↦ (done 0, link)
    | some f ↦ (let r = f link.world in (done r.0, record link { world = r.1 }))
  ]

  unfoldable pub init_session_params : Call (UpdiLink S) Unit
  unfolding ◌>>=◌ stcs enable_ack
  init_session_params = do stcs updi_cs_ctrlb (2 ^ updi_ctrlb_ccdetdis_bit); enable_ack

  -- what a status other than `UpdiOk` gives
  unfoldable pub is_alive : Outcome ℕ → Bool
  is_alive (done statusa) = not (statusa == 0)
  is_alive (failed _) = false

  unfoldable pub check_datalink : Call (UpdiLink S) Bool
  unfolding ldcs is_alive
  check_datalink link = let r = ldcs updi_cs_statusa link in (done (is_alive r.0), r.1)

  -- the second try comes after a double break
  unfoldable pub activate : Call (UpdiLink S) Unit
  unfolding ◌>>=◌ send_raw init_session_params check_datalink double_break fail_if regardless
  activate = regardless (send_raw (updi_break ∷ [])) (
      regardless init_session_params (
        check_datalink >>= λ alive.
        if alive
        then give tt
        else double_break
          >> regardless init_session_params
              (check_datalink >>= λ alive'. fail_if (not alive') Status.timeout)))

  unfoldable pub ld_byte : ℕ → Call (UpdiLink S) ℕ
  unfolding ◌>>=◌ send_raw recv_all addr24
  ld_byte address = do
    wide ← addr24
    send_raw (
        updi_phy_sync
        ∷ bit_or (bit_or updi_lds (if wide then updi_address_24 else updi_address_16)) updi_data_8
        ∷ put_address wide address)
    response ← recv_all 1 Status.timeout
    give (get_or response 0 0)

  unfoldable pub st_data_phase : List ℕ → Call (UpdiLink S) Unit
  unfolding ◌>>=◌ send_raw expect_ack
  st_data_phase values = do expect_ack; send_raw values; expect_ack

  unfoldable pub st_byte : ℕ → ℕ → Call (UpdiLink S) Unit
  unfolding ◌>>=◌ send_raw addr24 st_data_phase
  st_byte address value = do
    wide ← addr24
    send_raw (
        updi_phy_sync
        ∷ bit_or (bit_or updi_sts (if wide then updi_address_24 else updi_address_16)) updi_data_8
        ∷ put_address wide address)
    st_data_phase (value ∷ [])

  unfoldable pub st16 : ℕ → ℕ → Call (UpdiLink S) Unit
  unfolding ◌>>=◌ send_raw addr24 st_data_phase
  st16 address value = do
    wide ← addr24
    send_raw (
        updi_phy_sync
        ∷ bit_or (bit_or updi_sts (if wide then updi_address_24 else updi_address_16)) updi_data_16
        ∷ put_address wide address)
    st_data_phase ((value % 256) ∷ (value / 256 % 256) ∷ [])

  unfoldable pub st_ptr : ℕ → Call (UpdiLink S) Unit
  unfolding ◌>>=◌ send_raw addr24 expect_ack
  st_ptr address = do
    wide ← addr24
    send_raw (
        updi_phy_sync
        ∷ bit_or (bit_or updi_st updi_ptr_address) (if wide then updi_data_24 else updi_data_16)
        ∷ put_address wide address)
    expect_ack
