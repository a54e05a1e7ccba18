-- ===== src/Link/Wide.antt =====
-- `UpdiDatalink24bit` of reference/pymcuprog/serialupdi/link.py: addresses and the pointer are three bytes.
use updi_programmer.Prelude.{ℕ, ◌/◌, ◌%◌, List, [], ◌∷◌, bit_or}
use updi_programmer.Exec.{Exec, index_error, pure, raise, ◌>>=◌, ◌>>◌}
use updi_programmer.Phys.{Phys}
use updi_programmer.Constants.{
  updi_phy_sync, updi_lds, updi_sts, updi_st, updi_ptr_address, updi_address_24, updi_data_8,
  updi_data_16, updi_data_24,
}
use updi_programmer.Link.Base.{expect_ack, st_data_phase}

-- the bytes of an address, lowest first
abbrev pub address_bytes : ℕ → List ℕ
address_bytes address = (address % 256) ∷ (address / 256 % 256) ∷ (address / 65536 % 256) ∷ []

-- `response[0]`
abbrev pub first : {S : Type 0} → List ℕ → Exec S ℕ
first [] = raise index_error
first (b ∷ _) = pure b

module _ {S : Type 0} (phy : Phys S) where
  unfoldable pub ld : ℕ → Exec S ℕ
  unfolding ◌>>=◌
  ld address = do
    phy.send (
        updi_phy_sync
        ∷ bit_or (bit_or updi_lds updi_address_24) updi_data_8
        ∷ address_bytes address)
    response ← phy.receive 1
    first response

  unfoldable pub ld16 : ℕ → Exec S (List ℕ)
  unfolding ◌>>=◌
  ld16 address = do
    phy.send (
        updi_phy_sync
        ∷ bit_or (bit_or updi_lds updi_address_24) updi_data_16
        ∷ address_bytes address)
    phy.receive 2

  unfoldable pub st : ℕ → ℕ → Exec S Unit
  unfolding ◌>>=◌ st_data_phase
  st address value = do
    phy.send (
        updi_phy_sync
        ∷ bit_or (bit_or updi_sts updi_address_24) updi_data_8
        ∷ address_bytes address)
    st_data_phase phy ((value % 256) ∷ [])

  unfoldable pub st16 : ℕ → ℕ → Exec S Unit
  unfolding ◌>>=◌ st_data_phase
  st16 address value = do
    phy.send (
        updi_phy_sync
        ∷ bit_or (bit_or updi_sts updi_address_24) updi_data_16
        ∷ address_bytes address)
    st_data_phase phy ((value % 256) ∷ (value / 256 % 256) ∷ [])

  unfoldable pub st_ptr : ℕ → Exec S Unit
  unfolding ◌>>=◌ expect_ack
  st_ptr address = do
    phy.send (
        updi_phy_sync
        ∷ bit_or (bit_or updi_st updi_ptr_address) updi_data_24
        ∷ address_bytes address)
    expect_ack phy
