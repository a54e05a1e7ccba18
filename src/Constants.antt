-- ===== src/Constants.antt =====
-- The constants of reference/pymcuprog/serialupdi/constants.py: instruction groups and fields, the
-- control and status registers, their bits, and the keys.
use updi_programmer.Prelude.{ℕ, ◌+◌, List, [], ◌∷◌}

abbrev pub updi_break : ℕ
updi_break = 0x00

abbrev pub updi_lds : ℕ
updi_lds = 0x00

abbrev pub updi_sts : ℕ
updi_sts = 0x40

abbrev pub updi_ld : ℕ
updi_ld = 0x20

abbrev pub updi_st : ℕ
updi_st = 0x60

abbrev pub updi_ldcs : ℕ
updi_ldcs = 0x80

abbrev pub updi_stcs : ℕ
updi_stcs = 0xC0

abbrev pub updi_repeat : ℕ
updi_repeat = 0xA0

abbrev pub updi_key : ℕ
updi_key = 0xE0

abbrev pub updi_ptr : ℕ
updi_ptr = 0x00

abbrev pub updi_ptr_inc : ℕ
updi_ptr_inc = 0x04

abbrev pub updi_ptr_address : ℕ
updi_ptr_address = 0x08

abbrev pub updi_address_8 : ℕ
updi_address_8 = 0x00

abbrev pub updi_address_16 : ℕ
updi_address_16 = 0x04

abbrev pub updi_address_24 : ℕ
updi_address_24 = 0x08

abbrev pub updi_data_8 : ℕ
updi_data_8 = 0x00

abbrev pub updi_data_16 : ℕ
updi_data_16 = 0x01

abbrev pub updi_data_24 : ℕ
updi_data_24 = 0x02

abbrev pub updi_key_sib : ℕ
updi_key_sib = 0x04

abbrev pub updi_key_key : ℕ
updi_key_key = 0x00

abbrev pub updi_key_64 : ℕ
updi_key_64 = 0x00

abbrev pub updi_key_128 : ℕ
updi_key_128 = 0x01

abbrev pub updi_key_256 : ℕ
updi_key_256 = 0x02

abbrev pub updi_sib_8bytes : ℕ
updi_sib_8bytes = updi_key_64

abbrev pub updi_sib_16bytes : ℕ
updi_sib_16bytes = updi_key_128

abbrev pub updi_sib_32bytes : ℕ
updi_sib_32bytes = updi_key_256

abbrev pub updi_repeat_byte : ℕ
updi_repeat_byte = 0x00

abbrev pub updi_repeat_word : ℕ
updi_repeat_word = 0x01

abbrev pub updi_phy_sync : ℕ
updi_phy_sync = 0x55

abbrev pub updi_phy_ack : ℕ
updi_phy_ack = 0x40

abbrev pub updi_max_repeat_size : ℕ
updi_max_repeat_size = 0xFF + 1

abbrev pub updi_cs_statusa : ℕ
updi_cs_statusa = 0x00

abbrev pub updi_cs_statusb : ℕ
updi_cs_statusb = 0x01

abbrev pub updi_cs_ctrla : ℕ
updi_cs_ctrla = 0x02

abbrev pub updi_cs_ctrlb : ℕ
updi_cs_ctrlb = 0x03

abbrev pub updi_asi_key_status : ℕ
updi_asi_key_status = 0x07

abbrev pub updi_asi_reset_req : ℕ
updi_asi_reset_req = 0x08

abbrev pub updi_asi_ctrla : ℕ
updi_asi_ctrla = 0x09

abbrev pub updi_asi_sys_ctrla : ℕ
updi_asi_sys_ctrla = 0x0A

abbrev pub updi_asi_sys_status : ℕ
updi_asi_sys_status = 0x0B

abbrev pub updi_asi_crc_status : ℕ
updi_asi_crc_status = 0x0C

abbrev pub updi_ctrla_ibdly_bit : ℕ
updi_ctrla_ibdly_bit = 7

abbrev pub updi_ctrla_rsd_bit : ℕ
updi_ctrla_rsd_bit = 3

abbrev pub updi_ctrlb_ccdetdis_bit : ℕ
updi_ctrlb_ccdetdis_bit = 3

abbrev pub updi_ctrlb_updidis_bit : ℕ
updi_ctrlb_updidis_bit = 2

abbrev pub updi_key_nvm : List ℕ
updi_key_nvm = b'N' ∷ b'V' ∷ b'M' ∷ b'P' ∷ b'r' ∷ b'o' ∷ b'g' ∷ b' ' ∷ []

abbrev pub updi_key_chiperase : List ℕ
updi_key_chiperase = b'N' ∷ b'V' ∷ b'M' ∷ b'E' ∷ b'r' ∷ b'a' ∷ b's' ∷ b'e' ∷ []

abbrev pub updi_key_urow : List ℕ
updi_key_urow = b'N' ∷ b'V' ∷ b'M' ∷ b'U' ∷ b's' ∷ b'&' ∷ b't' ∷ b'e' ∷ []

abbrev pub updi_asi_statusa_revid : ℕ
updi_asi_statusa_revid = 4

abbrev pub updi_asi_statusb_pesig : ℕ
updi_asi_statusb_pesig = 0

abbrev pub updi_asi_key_status_chiperase : ℕ
updi_asi_key_status_chiperase = 3

abbrev pub updi_asi_key_status_nvmprog : ℕ
updi_asi_key_status_nvmprog = 4

abbrev pub updi_asi_key_status_urowwrite : ℕ
updi_asi_key_status_urowwrite = 5

abbrev pub updi_asi_sys_status_rstsys : ℕ
updi_asi_sys_status_rstsys = 5

abbrev pub updi_asi_sys_status_insleep : ℕ
updi_asi_sys_status_insleep = 4

abbrev pub updi_asi_sys_status_nvmprog : ℕ
updi_asi_sys_status_nvmprog = 3

abbrev pub updi_asi_sys_status_urowprog : ℕ
updi_asi_sys_status_urowprog = 2

abbrev pub updi_asi_sys_status_lockstatus : ℕ
updi_asi_sys_status_lockstatus = 0

abbrev pub updi_asi_sys_ctrla_urow_final : ℕ
updi_asi_sys_ctrla_urow_final = 1

abbrev pub updi_reset_req_value : ℕ
updi_reset_req_value = 0x59
