-- ===== src/ReadWrite.antt =====
-- Reads and writes of memory, reference/pymcuprog/serialupdi/readwrite.py, over either data link.
pub mod Refuses
use updi_programmer.Prelude.{ℕ, zero, suc, ◌+◌, ◌*◌, ◌/◌, List, [], ◌∷◌, ltb, if◌then◌else◌}
use updi_programmer.Prelude.Lists.{length, take, drop}
use updi_programmer.Exec.{Exec, protocol_error, out_of_fuel, pure, raise, raise_if, ◌>>=◌, ◌>>◌}
use updi_programmer.Link.{Datalink}
use updi_programmer.Constants.{updi_max_repeat_size}

-- What the NVM drivers and the application call of an `UpdiReadWrite`.
pub record ReadWrite (S : Type 0) : Type 0 where
  pub read_cs : ℕ → Exec S ℕ
  pub write_cs : ℕ → ℕ → Exec S Unit
  pub write_key : ℕ → List ℕ → Exec S Unit
  pub read_sib : Exec S (List ℕ)
  pub read_byte : ℕ → Exec S ℕ
  pub write_byte : ℕ → ℕ → Exec S Unit
  pub read_data : ℕ → ℕ → Exec S (List ℕ)
  pub read_data_words : ℕ → ℕ → Exec S (List ℕ)
  pub write_data_words : ℕ → List ℕ → Exec S Unit
  pub write_data : ℕ → List ℕ → Exec S Unit

module _ {S : Type 0} (datalink : Datalink S) where
  unfoldable pub read_data : ℕ → ℕ → Exec S (List ℕ)
  unfolding ◌>>=◌ raise_if
  read_data address size = do
    raise_if (ltb updi_max_repeat_size size) protocol_error
    datalink.st_ptr address
    if ltb 1 size then datalink.repeat size else pure tt
    datalink.ld_ptr_inc size

  unfoldable pub read_data_words : ℕ → ℕ → Exec S (List ℕ)
  unfolding ◌>>=◌ raise_if
  read_data_words address words = do
    raise_if (ltb (updi_max_repeat_size / 2) words) protocol_error
    datalink.st_ptr address
    if ltb 1 words then datalink.repeat words else pure tt
    datalink.ld_ptr_inc16 words

  -- the words of a block through the pointer
  unfoldable pub write_block_words : ℕ → List ℕ → Exec S Unit
  unfolding ◌>>=◌ raise_if
  write_block_words address bytes = do
    raise_if (ltb (updi_max_repeat_size * 2) (length bytes)) protocol_error
    datalink.st_ptr address
    datalink.repeat (length bytes / 2)
    datalink.st_ptr_inc16 bytes

  -- One word goes out as a direct store.
  unfoldable pub write_data_words : ℕ → List ℕ → Exec S Unit
  unfolding write_block_words
  write_data_words address (b ∷ c ∷ []) = datalink.st16 address (b + c * 256)
  write_data_words address bytes = write_block_words address bytes

  -- `while numbytes`, on fuel: each round sends 256 bytes, or what is left.
  unfoldable pub write_chunks : ℕ → ℕ → List ℕ → Exec S Unit
  unfolding ◌>>=◌
  write_chunks fuel address [] = pure tt
  write_chunks zero address (b ∷ rest) = raise out_of_fuel
  write_chunks (suc fuel) address (b ∷ rest) = do
    let bytes = b ∷ rest
    let chunk_size =
        if ltb updi_max_repeat_size (length bytes) then updi_max_repeat_size else length bytes
    datalink.st_ptr address
    datalink.repeat chunk_size
    datalink.st_ptr_inc (take chunk_size bytes)
    write_chunks fuel (address + chunk_size) (drop chunk_size bytes)

  -- One byte and two bytes are direct stores. A round of the loop sends at least one byte, so the
  -- length is fuel enough.
  unfoldable pub write_data : ℕ → List ℕ → Exec S Unit
  unfolding ◌>>=◌ write_chunks
  write_data address (b ∷ []) = datalink.st address b
  write_data address (b ∷ c ∷ []) = do datalink.st address b; datalink.st (address + 1) c
  write_data address bytes = write_chunks (length bytes) address bytes

  abbrev pub updi_read_write : ReadWrite S
  updi_read_write = record {
    read_cs = datalink.ldcs;
    write_cs = datalink.stcs;
    write_key = datalink.key;
    read_sib = datalink.read_sib;
    read_byte = datalink.ld;
    write_byte = datalink.st;
    read_data = read_data;
    read_data_words = read_data_words;
    write_data_words = write_data_words;
    write_data = write_data;
  }
