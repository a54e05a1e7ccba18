-- ===== src/Port/Link/Block.antt =====
-- Block transfers through the pointer, keys and the SIB, of updi/updi_link.c.
use updi_programmer.Prelude.{
  ℕ, ◌-◌, ◌*◌, ◌^◌, ◌%◌, not, ◌||◌, List, [], ◌∷◌, reverse, bit_or, ltb, ◌==◌, if◌then◌else◌,
}
use updi_programmer.Prelude.Lists.{length}
use updi_programmer.Constants.{
  updi_phy_sync, updi_ld, updi_st, updi_repeat, updi_repeat_byte, updi_key, updi_key_key,
  updi_key_sib, updi_ptr_inc, updi_data_8, updi_data_16, updi_max_repeat_size, updi_sib_8bytes,
  updi_sib_16bytes, updi_sib_32bytes,
}
use updi_programmer.Port.Call.{Call, Status, give, fail, fail_if, ◌>>=◌, ◌>>◌}
use updi_programmer.Port.Transport.{Transport}
use updi_programmer.Port.Link.{
  UpdiLink, send_raw, recv_raw, recv_all, expect_ack, enable_ack, disable_ack,
}

module _ {S : Type 0} (transport : Transport S) where
  unfoldable pub ld_ptr_inc : ℕ → Call (UpdiLink S) (List ℕ)
  unfolding ◌>>=◌ send_raw recv_all
  ld_ptr_inc size = do
    send_raw transport (updi_phy_sync ∷ bit_or (bit_or updi_ld updi_ptr_inc) updi_data_8 ∷ [])
    recv_all transport size Status.timeout

  unfoldable pub ld_ptr_inc16 : ℕ → Call (UpdiLink S) (List ℕ)
  unfolding ◌>>=◌ send_raw recv_all
  ld_ptr_inc16 words = do
    send_raw transport (updi_phy_sync ∷ bit_or (bit_or updi_ld updi_ptr_inc) updi_data_16 ∷ [])
    recv_all transport (words * 2) Status.timeout

  -- the `for` loop of `updi_link_st_ptr_inc`
  unfoldable pub st_each : List ℕ → Call (UpdiLink S) Unit
  unfolding ◌>>=◌ send_raw expect_ack
  st_each [] = give tt
  st_each (b ∷ rest) = do send_raw transport (b ∷ []); expect_ack transport; st_each rest

  unfoldable pub st_ptr_inc : List ℕ → Call (UpdiLink S) Unit
  unfolding ◌>>=◌ send_raw expect_ack st_each
  st_ptr_inc [] = fail Status.param
  st_ptr_inc (b ∷ rest) = do
    send_raw transport (updi_phy_sync ∷ bit_or (bit_or updi_st updi_ptr_inc) updi_data_8 ∷ b ∷ [])
    expect_ack transport
    st_each rest

  unfoldable pub st_ptr_inc16_block : List ℕ → Call (UpdiLink S) Unit
  unfolding ◌>>=◌ send_raw enable_ack disable_ack
  st_ptr_inc16_block bytes = do
    disable_ack transport
    send_raw transport (updi_phy_sync ∷ bit_or (bit_or updi_st updi_ptr_inc) updi_data_16 ∷ [])
    send_raw transport bytes
    enable_ack transport

  unfoldable pub repeat : ℕ → Call (UpdiLink S) Unit
  unfolding ◌>>=◌ send_raw fail_if
  repeat count = do
    fail_if (ltb count 1 || ltb updi_max_repeat_size count) Status.param
    send_raw transport
        (updi_phy_sync ∷ bit_or updi_repeat updi_repeat_byte ∷ ((count - 1) % 256) ∷ [])

  unfoldable pub key : ℕ → List ℕ → Call (UpdiLink S) Unit
  unfolding ◌>>=◌ send_raw fail_if
  key size_idx bytes = do
    fail_if (not (length bytes == 8 * 2 ^ size_idx)) Status.param
    fail_if (ltb 32 (length bytes)) Status.param
    send_raw transport (updi_phy_sync ∷ bit_or (bit_or updi_key updi_key_key) size_idx ∷ [])
    send_raw transport (reverse bytes)

  -- what comes, at most `size` bytes; none is a timeout
  unfoldable pub read_sib : ℕ → Call (UpdiLink S) (List ℕ)
  unfolding ◌>>=◌ send_raw recv_raw fail_if
  read_sib size = do
    let sel =
        if not (ltb size 32)
        then updi_sib_32bytes
        else if not (ltb size 16)
        then updi_sib_16bytes
        else updi_sib_8bytes
    send_raw transport (updi_phy_sync ∷ bit_or (bit_or updi_key updi_key_sib) sel ∷ [])
    response ← recv_raw transport size
    fail_if (length response == 0) Status.timeout
    give response
