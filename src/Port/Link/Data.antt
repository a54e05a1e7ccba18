-- ===== src/Port/Link/Data.antt =====
-- The reads and writes of whole ranges, of updi/updi_link.c.
use updi_programmer.Prelude.{
  ℕ, zero, suc, ◌+◌, ◌*◌, ◌/◌, ◌%◌, ◌^◌, not, List, [], ◌∷◌, ltb, ◌==◌, if◌then◌else◌,
}
use updi_programmer.Prelude.Lists.{length, take, drop}
use updi_programmer.Constants.{updi_max_repeat_size}
use updi_programmer.Port.Call.{Call, Status, give, fail, fail_if, ◌>>=◌, ◌>>◌}
use updi_programmer.Port.Transport.{Transport}
use updi_programmer.Port.Link.{UpdiLink, st_byte, st16, st_ptr}
use updi_programmer.Port.Link.Block.{
  ld_ptr_inc, ld_ptr_inc16, st_ptr_inc, st_ptr_inc16_block, repeat,
}

module _ {S : Type 0} (transport : Transport S) where
  unfoldable pub read_data : ℕ → ℕ → Call (UpdiLink S) (List ℕ)
  unfolding ◌>>=◌ fail_if
  read_data address size = do
    fail_if (ltb updi_max_repeat_size size) Status.param
    st_ptr transport address
    if ltb 1 size then repeat transport size else give tt
    ld_ptr_inc transport size

  unfoldable pub read_data_words : ℕ → ℕ → Call (UpdiLink S) (List ℕ)
  unfolding ◌>>=◌ fail_if
  read_data_words address words = do
    fail_if (ltb (updi_max_repeat_size / 2) words) Status.param
    st_ptr transport address
    if ltb 1 words then repeat transport words else give tt
    ld_ptr_inc16 transport words

  -- the words of a block through the pointer
  unfoldable pub write_block_words : ℕ → List ℕ → Call (UpdiLink S) Unit
  unfolding ◌>>=◌ fail_if
  write_block_words address bytes = do
    fail_if (ltb (updi_max_repeat_size * 2) (length bytes)) Status.param
    st_ptr transport address
    repeat transport (length bytes / 2)
    st_ptr_inc16_block transport bytes

  -- No bytes, and an odd number of bytes, are refused.
  unfoldable pub write_data_words : ℕ → List ℕ → Call (UpdiLink S) Unit
  unfolding ◌>>=◌ fail_if write_block_words
  write_data_words address [] = fail Status.param
  write_data_words address (b ∷ c ∷ []) = st16 transport address (b + c * 256)
  write_data_words address bytes = do
    fail_if (not (length bytes % 2 == 0)) Status.param
    write_block_words address bytes

  -- `while(numbytes)`, on fuel
  unfoldable pub write_chunks : ℕ → ℕ → List ℕ → Call (UpdiLink S) Unit
  unfolding ◌>>=◌
  write_chunks fuel address [] = give tt
  write_chunks zero address (b ∷ rest) = fail Status.out_of_fuel
  write_chunks (suc fuel) address (b ∷ rest) = do
    let bytes = b ∷ rest
    let chunk =
        if ltb updi_max_repeat_size (length bytes) then updi_max_repeat_size else length bytes
    st_ptr transport address
    repeat transport chunk
    st_ptr_inc transport (take chunk bytes)
    write_chunks fuel ((address + chunk) % 2 ^ 32) (drop chunk bytes)

  -- A round sends at least one byte, so the length is fuel enough.
  unfoldable pub write_data : ℕ → List ℕ → Call (UpdiLink S) Unit
  unfolding ◌>>=◌ write_chunks
  write_data address [] = fail Status.param
  write_data address (b ∷ []) = st_byte transport address b
  write_data address (b ∷ c ∷ []) = do
    st_byte transport address b
    st_byte transport ((address + 1) % 2 ^ 32) c
  write_data address bytes = write_chunks (length bytes) address bytes
