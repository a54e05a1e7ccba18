-- ===== src/Target/Device.antt =====
-- The instruction decoder of host_test/updi_emu.c, one byte at a time.
use updi_programmer.Prelude.{
  ℕ, zero, suc, ◌+◌, ◌-◌, ◌*◌, ◌/◌, ◌%◌, ◌^◌, Bool, true, false, ◌&&◌, List, [], ◌∷◌, ◌++◌, reverse,
  bit_and, bit_or, leb, ◌==◌, if◌then◌else◌,
}
use updi_programmer.Prelude.Lists.{length}
use updi_programmer.Constants.{
  updi_phy_sync, updi_phy_ack, updi_address_24, updi_ptr_address, updi_ptr_inc, updi_data_16,
  updi_key_sib, updi_asi_reset_req, updi_asi_sys_status, updi_asi_sys_status_nvmprog,
  updi_asi_key_status, updi_asi_key_status_nvmprog, updi_asi_key_status_chiperase, updi_key_nvm,
  updi_key_chiperase,
}
use updi_programmer.Target.Memory.{Preset, Memory, mem_write, read_range, update}

-- The decoder's state, with what it has gathered: sizes, and the bytes in `acc`.
pub data Phase : Type 0 where
  idle opcode repeat_val : Phase
  stcs_val : ℕ → Phase
  lds_addr sts_addr : (data_size need : ℕ) → List ℕ → Phase
  sts_data : (need cur_addr : ℕ) → List ℕ → Phase
  stptr_addr key : (need : ℕ) → List ℕ → Phase
  stinc8 stinc16 : (inc_left : ℕ) → Phase

-- the rest of the emulator's state, but for the receive queue
pub record Core : Type 0 where
  pub memory : Memory
  pub cs : ℕ → ℕ
  pub ptr : ℕ
  pub repeat_next : ℕ
  pub nvm_key : Bool
  pub erase_key : Bool

-- what a byte does: the new state, and the bytes that it pushes
pub record Reply : Type 0 where
  pub core : Core
  pub phase : Phase
  pub pushed : List ℕ

abbrev pub reply : Core → Phase → List ℕ → Reply
reply core phase pushed = record { core = core; phase = phase; pushed = pushed }

-- bytes, lowest first: the `|=` of disjoint bytes is a sum
unfoldable pub le_value : List ℕ → ℕ
le_value [] = 0
le_value (b ∷ bs) = b + 256 * le_value bs

unfoldable pub same_bytes : List ℕ → List ℕ → Bool
same_bytes [] [] = true
same_bytes (a ∷ as') (b ∷ bs) = a == b && same_bytes as' bs
same_bytes _ _ = false

-- the register with bit 0, LOCKSTATUS, cleared
abbrev unlocked : ℕ → ℕ
unlocked status = status - status % 2

-- Reset released: an armed key takes effect.
abbrev release_reset : Core → Core
release_reset e =
    let status = e.cs updi_asi_sys_status in
    let programming =
      if e.nvm_key then unlocked (bit_or status (2 ^ updi_asi_sys_status_nvmprog)) else status in
    let erased = if e.erase_key then unlocked programming else programming in
    record e { cs = update e.cs updi_asi_sys_status erased }

unfoldable pub apply_stcs : ℕ → ℕ → Core → Core
apply_stcs addr val e =
    let stored = record e { cs = update e.cs (addr % 16) val } in
    if addr == updi_asi_reset_req && val == 0 then release_reset stored else stored

-- a complete key, un-reversed
unfoldable pub accept_key : List ℕ → Core → Core
unfolding same_bytes
accept_key bytes e =
    if same_bytes bytes updi_key_nvm
    then record e {
      nvm_key = true;
      cs =
          update e.cs updi_asi_key_status
            (bit_or (e.cs updi_asi_key_status) (2 ^ updi_asi_key_status_nvmprog));
    }
    else if same_bytes bytes updi_key_chiperase
    then record e {
      erase_key = true;
      cs =
          update e.cs updi_asi_key_status
            (bit_or (e.cs updi_asi_key_status) (2 ^ updi_asi_key_status_chiperase));
    }
    else e

module _ (preset : Preset) where
  -- a store of the gathered bytes from `addr` up
  unfoldable pub store_all : ℕ → List ℕ → Memory → Memory
  store_all addr [] m = m
  store_all addr (b ∷ bs) m = store_all (addr + 1) bs (mem_write preset addr b m)

  -- `n` bytes of the SIB, zero past its end
  unfoldable pub sib_bytes : ℕ → List ℕ → List ℕ
  sib_bytes zero sib = []
  sib_bytes (suc n) [] = 0 ∷ sib_bytes n []
  sib_bytes (suc n) (c ∷ cs) = c ∷ sib_bytes n cs

  abbrev data_size_of : ℕ → ℕ
  data_size_of op = if bit_and op 0x01 == 0 then 1 else 2

  abbrev address_size_of : ℕ → ℕ
  address_size_of op = if bit_and op updi_address_24 == 0 then 2 else 3

  -- the byte width of a block access
  abbrev per : ℕ → ℕ
  per op = if bit_and op 0x03 == updi_data_16 then 2 else 1

  unfoldable pub decode_ld : ℕ → Core → Reply
  decode_ld op e =
      if bit_and op 0x0C == updi_ptr_inc
      then (let n = (e.repeat_next + 1) * per op in
          reply (record e { repeat_next = 0; ptr = (e.ptr + n) % 2 ^ 32 }) Phase.idle
            (read_range preset e.memory e.ptr n))
      else reply e Phase.idle []

  unfoldable pub decode_st : ℕ → Core → Reply
  decode_st op e =
      if bit_and op 0x0C == updi_ptr_address
      then reply e (Phase.stptr_addr (if bit_and op 0x02 == 0 then 2 else 3) []) []
      else if bit_and op 0x0C == updi_ptr_inc
      then reply (record e { repeat_next = 0 })
          (if bit_and op 0x03 == updi_data_16
            then Phase.stinc16 ((e.repeat_next + 1) * 2)
            else Phase.stinc8 (e.repeat_next + 1))
          []
      else reply e Phase.idle []

  unfoldable pub decode_key : ℕ → Core → Reply
  unfolding sib_bytes
  decode_key op e =
      let size = bit_and op 0x03 in
      if bit_and op updi_key_sib == 0
      then reply e (Phase.key (8 * 2 ^ size) []) []
      else reply e Phase.idle
          (sib_bytes (if size == 2 then 32 else if size == 1 then 16 else 8) preset.sib)

  -- the group of an opcode is its top three bits
  unfoldable pub decode : ℕ → Core → Reply
  unfolding decode_ld decode_st decode_key
  decode op e =
      let grp = op / 2 ^ 5 in
      if grp == 0x4
      then reply e Phase.idle (e.cs (op % 16) ∷ [])
      else if grp == 0x6
      then reply e (Phase.stcs_val (op % 16)) []
      else if grp == 0x0
      then reply e (Phase.lds_addr (data_size_of op) (address_size_of op) []) []
      else if grp == 0x2
      then reply e (Phase.sts_addr (data_size_of op) (address_size_of op) []) []
      else if grp == 0x3
      then decode_st op e
      else if grp == 0x1
      then decode_ld op e
      else if grp == 0x5
      then reply e Phase.repeat_val []
      else if grp == 0x7
      then decode_key op e
      else reply e Phase.idle []

  unfoldable pub feed_byte : Core → Phase → ℕ → Reply
  unfolding decode le_value store_all
  feed_byte e Phase.idle b = reply e (if b == updi_phy_sync then Phase.opcode else Phase.idle) []
  feed_byte e Phase.opcode b = decode b e
  feed_byte e (Phase.stcs_val addr) b = reply (apply_stcs addr b e) Phase.idle []
  feed_byte e Phase.repeat_val b = reply (record e { repeat_next = b }) Phase.idle []
  feed_byte e (Phase.lds_addr data_size need acc) b =
      let acc' = acc ++ b ∷ [] in
      if leb need (length acc')
      then reply e Phase.idle (read_range preset e.memory (le_value acc') data_size)
      else reply e (Phase.lds_addr data_size need acc') []
  feed_byte e (Phase.sts_addr data_size need acc) b =
      let acc' = acc ++ b ∷ [] in
      if leb need (length acc')
      then reply e (Phase.sts_data data_size (le_value acc') []) (updi_phy_ack ∷ [])
      else reply e (Phase.sts_addr data_size need acc') []
  feed_byte e (Phase.sts_data need cur_addr acc) b =
      let acc' = acc ++ b ∷ [] in
      if leb need (length acc')
      then reply (record e { memory = store_all cur_addr acc' e.memory }) Phase.idle
          (updi_phy_ack ∷ [])
      else reply e (Phase.sts_data need cur_addr acc') []
  feed_byte e (Phase.stptr_addr need acc) b =
      let acc' = acc ++ b ∷ [] in
      if leb need (length acc')
      then reply (record e { ptr = le_value acc' }) Phase.idle (updi_phy_ack ∷ [])
      else reply e (Phase.stptr_addr need acc') []
  feed_byte e (Phase.stinc8 inc_left) b =
      reply (record e { memory = mem_write preset e.ptr b e.memory; ptr = (e.ptr + 1) % 2 ^ 32 })
        (if leb inc_left 1 then Phase.idle else Phase.stinc8 (inc_left - 1)) (updi_phy_ack ∷ [])
  feed_byte e (Phase.stinc16 inc_left) b =
      reply (record e { memory = mem_write preset e.ptr b e.memory; ptr = (e.ptr + 1) % 2 ^ 32 })
        (if leb inc_left 1 then Phase.idle else Phase.stinc16 (inc_left - 1)) []
  feed_byte e (Phase.key need acc) b =
      let acc' = acc ++ b ∷ [] in
      if leb need (length acc')
      then reply (if need == 8 then accept_key (reverse acc') e else e) Phase.idle []
      else reply e (Phase.key need acc') []
