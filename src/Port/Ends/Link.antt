-- ===== src/Port/Ends/Link.antt =====
-- The end of the calls of updi/updi_link.c that access memory.
use updi_programmer.Prelude.{
  ℕ, ◌+◌, ◌-◌, ◌*◌, ◌/◌, ◌%◌, ◌^◌, ◌≢◌, Bool, true, false, not, ◌||◌, bit_or, Option, none, some,
  List, [], ◌∷◌, ltb, ◌==◌, if◌then◌else◌,
}
use updi_programmer.Prelude.Lists.{length, get_or}
use updi_programmer.Constants.{
  updi_phy_sync, updi_lds, updi_sts, updi_st, updi_ld, updi_repeat, updi_repeat_byte, updi_ptr_inc,
  updi_ptr_address, updi_address_16, updi_address_24, updi_data_8, updi_data_16, updi_data_24,
  updi_max_repeat_size, updi_phy_ack, updi_cs_ctrla, updi_ctrla_ibdly_bit, updi_ctrla_rsd_bit,
}
use updi_programmer.Port.Call.{Outcome, done, failed, Status}
use updi_programmer.Port.Transport.{Transport}
use updi_programmer.Port.Link.{
  UpdiLink, put_address, send_raw, recv_raw, recv_all, expect_ack, addr24, stcs, set_ack,
  enable_ack, disable_ack, millis, ld_byte, st_data_phase, st_byte, st16, st_ptr,
}
use updi_programmer.Port.Link.Block.{ld_ptr_inc, st_each, st_ptr_inc, st_ptr_inc16_block, repeat}
use updi_programmer.Port.Link.Data.{read_data, write_block_words, write_data_words, write_data}
use updi_programmer.Port.Ends.{Ends, give-Ends, fail-Ends, if-Ends, fail_if-Ends, bind-Ends}

module _ {S : Type 0} (transport : Transport S) where
  sent : (b : Bool) → (if b then done tt else failed Status.transport) ≢ failed Status.out_of_fuel
  sent true h = cc
  sent false h = cc

  send_raw-Ends : (bytes : List ℕ) → Ends (send_raw transport bytes)
  unfolding send_raw
  send_raw-Ends bytes = record { ends = λ link. sent (transport.send bytes link.world).0 }

  recv_raw-Ends : (n : ℕ) → Ends (recv_raw transport n)
  unfolding recv_raw
  recv_raw-Ends n = record { ends = λ link h. cc }

  recv_all-Ends : (n : ℕ) → Ends (recv_all transport n Status.timeout)
  unfolding recv_all
  recv_all-Ends n = bind-Ends (recv_raw-Ends n) λ response.
      bind-Ends (fail_if-Ends (not (length response == n)) Status.timeout (λ h. cc))
        λ _. give-Ends response

  expect_ack-Ends : Ends (expect_ack transport)
  unfolding expect_ack
  expect_ack-Ends = bind-Ends (recv_raw-Ends 1) λ response.
      fail_if-Ends (not (length response == 1) || not (get_or response 0 0 == updi_phy_ack))
        Status.nack (λ h. cc)

  addr24-Ends : Ends (addr24 transport)
  unfolding addr24
  addr24-Ends = record { ends = λ link h. cc }

  clock_ends :
      (clock : Option (S → ℕ × S)) (link : UpdiLink S)
      → (elim clock as (λ _. Outcome ℕ × UpdiLink S) [
        | none ↦ (done 0, link)
        | some f ↦ (let r = f link.world in (done r.0, record link { world = r.1 }))
      ]).0
        ≢ failed Status.out_of_fuel
  clock_ends none link h = cc
  clock_ends (some f) link h = cc

  pub millis-Ends : Ends (millis transport)
  unfolding millis
  millis-Ends = record { ends = λ link. clock_ends transport.millis link }

  stcs-Ends : (a v : ℕ) → Ends (stcs transport a v)
  unfolding stcs
  stcs-Ends a v = send_raw-Ends _

  set_ack-Ends : (b : Bool) → Ends (set_ack transport b)
  unfolding set_ack
  set_ack-Ends b = record { ends = λ link h. cc }

  enable_ack-Ends : Ends (enable_ack transport)
  unfolding enable_ack
  enable_ack-Ends =
      bind-Ends (stcs-Ends updi_cs_ctrla (2 ^ updi_ctrla_ibdly_bit)) λ _. set_ack-Ends true

  disable_ack-Ends : Ends (disable_ack transport)
  unfolding disable_ack
  disable_ack-Ends =
      bind-Ends
        (stcs-Ends updi_cs_ctrla (bit_or (2 ^ updi_ctrla_ibdly_bit) (2 ^ updi_ctrla_rsd_bit)))
        λ _. set_ack-Ends false

  pub ld_byte-Ends : (a : ℕ) → Ends (ld_byte transport a)
  unfolding ld_byte
  ld_byte-Ends a = bind-Ends addr24-Ends λ wide.
      bind-Ends
        (send_raw-Ends (
          updi_phy_sync
          ∷ bit_or (bit_or updi_lds (if wide then updi_address_24 else updi_address_16)) updi_data_8
          ∷ put_address wide a))
        λ _. bind-Ends (recv_all-Ends 1) λ response. give-Ends (get_or response 0 0)

  st_data_phase-Ends : (bytes : List ℕ) → Ends (st_data_phase transport bytes)
  unfolding st_data_phase
  st_data_phase-Ends bytes =
      bind-Ends expect_ack-Ends λ _. bind-Ends (send_raw-Ends bytes) λ _. expect_ack-Ends

  pub st_byte-Ends : (a v : ℕ) → Ends (st_byte transport a v)
  unfolding st_byte
  st_byte-Ends a v = bind-Ends addr24-Ends λ wide.
      bind-Ends
        (send_raw-Ends (
          updi_phy_sync
          ∷ bit_or (bit_or updi_sts (if wide then updi_address_24 else updi_address_16)) updi_data_8
          ∷ put_address wide a))
        λ _. st_data_phase-Ends (v ∷ [])

  st16-Ends : (a v : ℕ) → Ends (st16 transport a v)
  unfolding st16
  st16-Ends a v = bind-Ends addr24-Ends λ wide.
      bind-Ends
        (send_raw-Ends (
          updi_phy_sync
          ∷ bit_or (bit_or updi_sts (if wide then updi_address_24 else updi_address_16))
              updi_data_16
          ∷ put_address wide a))
        λ _. st_data_phase-Ends ((v % 256) ∷ (v / 256 % 256) ∷ [])

  st_ptr-Ends : (a : ℕ) → Ends (st_ptr transport a)
  unfolding st_ptr
  st_ptr-Ends a = bind-Ends addr24-Ends λ wide.
      bind-Ends
        (send_raw-Ends (
          updi_phy_sync
          ∷ bit_or (bit_or updi_st updi_ptr_address) (if wide then updi_data_24 else updi_data_16)
          ∷ put_address wide a))
        λ _. expect_ack-Ends

  ld_ptr_inc-Ends : (n : ℕ) → Ends (ld_ptr_inc transport n)
  unfolding ld_ptr_inc
  ld_ptr_inc-Ends n =
      bind-Ends
        (send_raw-Ends (updi_phy_sync ∷ bit_or (bit_or updi_ld updi_ptr_inc) updi_data_8 ∷ []))
        λ _. recv_all-Ends n

  st_each-Ends : (bytes : List ℕ) → Ends (st_each transport bytes)
  unfolding st_each
  st_each-Ends [] = give-Ends tt
  st_each-Ends (b ∷ rest) =
      bind-Ends (send_raw-Ends (b ∷ [])) λ _. bind-Ends expect_ack-Ends λ _. st_each-Ends rest

  st_ptr_inc-Ends : (bytes : List ℕ) → Ends (st_ptr_inc transport bytes)
  unfolding st_ptr_inc
  st_ptr_inc-Ends [] = fail-Ends Status.param (λ h. cc)
  st_ptr_inc-Ends (b ∷ rest) =
      bind-Ends
        (send_raw-Ends (updi_phy_sync ∷ bit_or (bit_or updi_st updi_ptr_inc) updi_data_8 ∷ b ∷ []))
        λ _. bind-Ends expect_ack-Ends λ _. st_each-Ends rest

  st_ptr_inc16_block-Ends : (bytes : List ℕ) → Ends (st_ptr_inc16_block transport bytes)
  unfolding st_ptr_inc16_block
  st_ptr_inc16_block-Ends bytes = bind-Ends disable_ack-Ends λ _.
      bind-Ends
        (send_raw-Ends (updi_phy_sync ∷ bit_or (bit_or updi_st updi_ptr_inc) updi_data_16 ∷ []))
        λ _. bind-Ends (send_raw-Ends bytes) λ _. enable_ack-Ends

  repeat-Ends : (n : ℕ) → Ends (repeat transport n)
  unfolding repeat
  repeat-Ends n =
      bind-Ends (fail_if-Ends (ltb n 1 || ltb updi_max_repeat_size n) Status.param (λ h. cc)) λ _.
        send_raw-Ends (updi_phy_sync ∷ bit_or updi_repeat updi_repeat_byte ∷ ((n - 1) % 256) ∷ [])

  pub read_data-Ends : (a n : ℕ) → Ends (read_data transport a n)
  unfolding read_data
  read_data-Ends a n =
      bind-Ends (fail_if-Ends (ltb updi_max_repeat_size n) Status.param (λ h. cc)) λ _.
        bind-Ends (st_ptr-Ends a)
          λ _. bind-Ends (if-Ends (ltb 1 n) (repeat-Ends n) (give-Ends tt)) λ _. ld_ptr_inc-Ends n

  write_block_words-Ends : (a : ℕ) (bytes : List ℕ) → Ends (write_block_words transport a bytes)
  unfolding write_block_words
  write_block_words-Ends a bytes =
      bind-Ends
        (fail_if-Ends (ltb (updi_max_repeat_size * 2) (length bytes)) Status.param (λ h. cc))
        λ _.
          bind-Ends (st_ptr-Ends a)
            λ _. bind-Ends (repeat-Ends (length bytes / 2)) λ _. st_ptr_inc16_block-Ends bytes

  pub write_data_words-Ends : (a : ℕ) (bytes : List ℕ) → Ends (write_data_words transport a bytes)
  unfolding write_data_words
  write_data_words-Ends a [] = fail-Ends Status.param (λ h. cc)
  write_data_words-Ends a (b ∷ []) =
      bind-Ends (fail_if-Ends (not (length (b ∷ []) % 2 == 0)) Status.param (λ h. cc))
        λ _. write_block_words-Ends a (b ∷ [])
  write_data_words-Ends a (b ∷ c ∷ []) = st16-Ends a (b + c * 256)
  write_data_words-Ends a (b ∷ c ∷ d ∷ rest) =
      bind-Ends (fail_if-Ends (not (length (b ∷ c ∷ d ∷ rest) % 2 == 0)) Status.param (λ h. cc))
        λ _. write_block_words-Ends a (b ∷ c ∷ d ∷ rest)

  pub write_byte-Ends : (a v : ℕ) → Ends (write_data transport a (v ∷ []))
  unfolding write_data
  write_byte-Ends a v = st_byte-Ends a v
