-- ===== src/Provider.antt =====
-- `NvmAccessProviderSerial` of reference/pymcuprog/nvmserialupdi.py: the operations of a
-- programming session on a device's memories.
pub mod Memory
pub mod Read
pub mod Write
pub mod Erase
pub mod Session
use updi_programmer.Prelude.{
  ℕ, zero, suc, ◌+◌, ◌-◌, ◌*◌, ◌/◌, Bool, true, false, not, ◌&&◌, Option, none, some, List, [], ◌∷◌,
  ◌++◌, ltb, ◌==◌, if◌then◌else◌,
}
use updi_programmer.Prelude.Lists.{length, take, drop, get_or}
use updi_programmer.Exec.{
  Exec, Error, locked_error, device_locked_error, session_error, index_error, zero_division,
  out_of_fuel, pure, raise, raise_if, try_except, ◌>>=◌, ◌>>◌,
}
use updi_programmer.Link.Base.{Exceptions}
use updi_programmer.Nvm.{Nvm}
use Memory.{MemoryName, MemoryInfo, same_name}

-- What the provider calls of `self.avr`.
pub record Avr (S : Type 0) : Type 0 where
  pub nvm : Nvm S
  pub read_device_info : Exec S Unit
  pub read_data : ℕ → ℕ → Exec S (List ℕ)
  pub enter_progmode : Exec S Unit
  pub leave_progmode : Exec S Unit
  pub unlock : Exec S Unit
  pub write_user_row_locked_device : ℕ → List ℕ → Exec S Unit

-- the two options of a session, true where the key is there and set
pub record Options : Type 0 where
  pub user_row_locked_device : Bool
  pub chip_erase_locked_device : Bool

-- `self.device_info` and `self.dut`, as far as `read_device_id` reads them
pub record DeviceInfo : Type 0 where
  pub device_id : ℕ
  pub syscfg_base : ℕ
  pub sigrow_address : ℕ

-- Functions of modules that are not in the repository: `pagealign data offset page_size
-- write_size` and `pad_to_size data size value` of pymcuprog.utils, `unpack_be24` of pyedbglib.
pub record Utils : Type 0 where
  pub pagealign : List ℕ → ℕ → ℕ → ℕ → List ℕ × ℕ
  pub pad_to_size : List ℕ → ℕ → ℕ → List ℕ
  pub unpack_be24 : List ℕ → ℕ

abbrev is_locked_error : Error → Bool
is_locked_error locked_error = true
is_locked_error _ = false

-- the memories that are written page by page
unfoldable pub is_paged : MemoryName → Bool
is_paged MemoryName.flash = true
is_paged MemoryName.eeprom = true
is_paged MemoryName.fuses = true
is_paged MemoryName.lockbits = true
is_paged _ = false

module _ {S : Type 0} (avr : Avr S) where
  open avr.nvm use {
    chip_erase, erase_flash_page, erase_eeprom, erase_user_row, write_flash, write_user_row,
    write_eeprom, write_fuse,
  }

  unfoldable pub start : Options → Exec S Unit
  unfolding try_except
  start options = try_except is_locked_error avr.enter_progmode λ _.
      if options.user_row_locked_device
      then pure tt
      else if options.chip_erase_locked_device
      then avr.unlock
      else raise device_locked_error

  -- The bytes come back with the byte order turned round.
  unfoldable pub read_device_id : Utils → DeviceInfo → Exec S (List ℕ)
  unfolding ◌>>=◌ raise_if
  read_device_id utils info = do
    avr.read_device_info
    sig ← avr.read_data info.sigrow_address 3
    raise_if (not (length sig == 3)) session_error
    raise_if (not (info.device_id == utils.unpack_be24 sig)) session_error
    revision ← avr.read_data (info.syscfg_base + 1) 1
    raise_if (length revision == 0) index_error
    avr.read_data (info.sigrow_address + 3) 10
    pure (get_or sig 2 0 ∷ get_or sig 1 0 ∷ get_or sig 0 0 ∷ [])

  -- a chip erase, and an unlock where it raises an IOError
  unfoldable pub erase_chip : Exceptions → Exec S Unit
  unfolding try_except
  erase_chip exceptions = try_except exceptions.is_io_error chip_erase (λ _. avr.unlock)

  -- `for i in range(n_pages)`: the page at `address`, and the ones above it
  unfoldable pub erase_pages : ℕ → ℕ → ℕ → Exec S Unit
  unfolding ◌>>=◌
  erase_pages address page_size zero = pure tt
  erase_pages address page_size (suc n) = do
    erase_flash_page address
    erase_pages (address + page_size) page_size n

  erase_memory : Exceptions → ℕ → MemoryInfo → MemoryName → Exec S Unit
  unfolding ◌>>=◌ raise_if erase_pages erase_chip
  erase_memory exceptions address info MemoryName.eeprom = erase_eeprom
  erase_memory exceptions address info MemoryName.user_row = erase_user_row address info.size
  erase_memory exceptions address info MemoryName.flash = do
    raise_if (info.page_size == 0) zero_division
    erase_pages address info.page_size (info.size / info.page_size)
  erase_memory exceptions address info _ = erase_chip exceptions

  unfoldable pub erase : Exceptions → Option MemoryInfo → Option ℕ → Exec S Unit
  unfolding erase_memory
  erase exceptions none address = erase_chip exceptions
  erase exceptions (some info) none = erase_memory exceptions info.address info info.name
  erase exceptions (some info) (some address) =
      erase_memory exceptions (address + info.address) info info.name

  -- the call that writes one chunk
  unfoldable pub write_chunk : MemoryName → ℕ → List ℕ → Exec S Unit
  write_chunk MemoryName.fuses = write_fuse
  write_chunk MemoryName.lockbits = write_fuse
  write_chunk MemoryName.eeprom = write_eeprom
  write_chunk MemoryName.user_row = write_user_row
  write_chunk MemoryName.boot_row = write_user_row
  write_chunk _ = write_flash

  -- `while data_aligned`, on fuel
  unfoldable pub write_loop : ℕ → MemoryName → ℕ → ℕ → List ℕ → Exec S Unit
  unfolding ◌>>=◌ write_chunk
  write_loop fuel name chunk_size offset [] = pure tt
  write_loop zero name chunk_size offset (b ∷ rest) = raise out_of_fuel
  write_loop (suc fuel) name chunk_size offset (b ∷ rest) = do
    let bytes = b ∷ rest
    let size = if ltb (length bytes) chunk_size then length bytes else chunk_size
    write_chunk name offset (take size bytes)
    write_loop fuel name size (offset + size) (drop size bytes)

  -- The fuel is the length of the aligned data: enough where a chunk is not empty.
  unfoldable pub write : Utils → Options → MemoryInfo → ℕ → List ℕ → Exec S Unit
  unfolding ◌>>=◌ write_loop is_paged same_name
  write utils options info offset bytes =
      let (aligned, start_offset) = utils.pagealign bytes offset info.page_size info.write_size in
      let address = start_offset + info.address in
      if same_name info.name MemoryName.user_row && options.user_row_locked_device
      then avr.write_user_row_locked_device address (utils.pad_to_size aligned info.page_size 0xFF)
      else write_loop (length aligned) info.name
          (if is_paged info.name then info.page_size else length aligned) address aligned

  -- `while numbytes`, on fuel
  unfoldable pub read_loop : ℕ → ℕ → ℕ → ℕ → List ℕ → Exec S (List ℕ)
  unfolding ◌>>=◌
  read_loop fuel chunk_size offset zero bytes = pure bytes
  read_loop zero chunk_size offset (suc n) bytes = raise out_of_fuel
  read_loop (suc fuel) chunk_size offset (suc n) bytes = do
    let numbytes = suc n
    let size = if ltb numbytes chunk_size then numbytes else chunk_size
    chunk ← avr.read_data offset size
    read_loop fuel size (offset + size) (numbytes - size) (bytes ++ chunk)

  -- A round reads at least one byte, so the number of bytes is fuel enough.
  unfoldable pub read : MemoryInfo → ℕ → ℕ → Exec S (List ℕ)
  unfolding read_loop
  read info offset numbytes = read_loop numbytes 0x100 (offset + info.address) numbytes []

  -- It returns at once: programming mode already holds the device in reset.
  unfoldable pub hold_in_reset : Exec S Unit
  hold_in_reset = pure tt

  unfoldable pub release_from_reset : Exec S Unit
  release_from_reset = avr.leave_progmode

  -- `self.avr` is set once the constructor has returned.
  unfoldable pub stop : Exec S Unit
  stop = avr.leave_progmode
