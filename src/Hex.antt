-- ===== src/Hex.antt =====
-- The Intel HEX parser of hex/intel_hex.c: one line of text at a time goes into an image.
pub mod Writer
pub mod Bounds
pub mod RoundTrip
use updi_programmer.Prelude.{
  ℕ, zero, suc, ◌+◌, ◌-◌, ◌*◌, ◌%◌, ◌^◌, Bool, true, false, not, ◌&&◌, ◌||◌, Option, none, some,
  List, [], ◌∷◌, ltb, leb, ◌==◌, if◌then◌else◌,
}
use updi_programmer.Prelude.Lists.{length, drop, get_or}
use updi_programmer.Target.Memory.{update}

pub data IntelHexStatus : Type 0 where
  ok err_format err_checksum err_overflow err_unsupported : IntelHexStatus

-- `IntelHexImage`; the buffer by index
pub record IntelHexImage : Type 0 where
  pub data_at : ℕ → ℕ
  pub capacity : ℕ
  pub base_offset : ℕ
  pub ext_base : ℕ
  pub min_offset : ℕ
  pub max_offset : ℕ
  pub any : Bool
  pub eof_seen : Bool

abbrev pub intel_hex_image_init : ℕ → ℕ → ℕ → IntelHexImage
intel_hex_image_init capacity base_offset fill = record {
  data_at = λ i. fill;
  capacity = capacity;
  base_offset = base_offset;
  ext_base = 0;
  min_offset = 0;
  max_offset = 0;
  any = false;
  eof_seen = false;
}

-- none for -1
unfoldable pub hex_nibble : ℕ → Option ℕ
hex_nibble c =
    if leb b'0' c && leb c b'9'
    then some (c - b'0')
    else if leb b'a' c && leb c b'f'
    then some (c - b'a' + 10)
    else if leb b'A' c && leb c b'F'
    then some (c - b'A' + 10)
    else none

-- `(hi << 4) | lo`
unfoldable pub hex_pair : Option ℕ → Option ℕ → Option ℕ
hex_pair (some hi) (some lo) = some (hi * 16 + lo)
hex_pair _ _ = none

-- The text ends at a NUL, and what lies behind it is read as one too.
unfoldable pub hex_byte : List ℕ → Option ℕ
unfolding hex_nibble hex_pair
hex_byte p = hex_pair (hex_nibble (get_or p 0 0)) (hex_nibble (get_or p 1 0))

unfoldable pub consed : Option ℕ → Option (List ℕ) → Option (List ℕ)
consed (some b) (some bs) = some (b ∷ bs)
consed _ _ = none

-- the loop over the data bytes
unfoldable pub hex_bytes : ℕ → List ℕ → Option (List ℕ)
unfolding hex_byte consed
hex_bytes zero p = some []
hex_bytes (suc n) p = consed (hex_byte p) (hex_bytes n (drop 2 p))

-- the fields of a record
pub record Fields : Type 0 where
  pub addr_hi : ℕ
  pub addr_lo : ℕ
  pub type : ℕ
  pub bytes : List ℕ
  pub checksum : ℕ

unfoldable pub bind : {A B : Type 0} → Option A → (A → Option B) → Option B
bind none k = none
bind (some a) k = k a

-- what stands behind the colon
unfoldable pub read_fields : List ℕ → Option Fields
unfolding hex_byte hex_bytes bind
read_fields line = bind (hex_byte line) λ byte_count. bind (hex_byte (drop 2 line)) λ addr_hi.
    bind (hex_byte (drop 4 line)) λ addr_lo. bind (hex_byte (drop 6 line)) λ type.
      let dp = drop 8 line in
      bind (hex_bytes byte_count dp) λ bytes. bind (hex_byte (drop (byte_count * 2) dp)) λ checksum.
        some (record {
          addr_hi = addr_hi;
          addr_lo = addr_lo;
          type = type;
          bytes = bytes;
          checksum = checksum;
        })

unfoldable pub total : List ℕ → ℕ
total [] = 0
total (b ∷ bs) = b + total bs

-- all bytes, the checksum too; the wrap of the running sum is done once, at the end
unfoldable pub checks : Fields → Bool
unfolding total
checks r = (length r.bytes + r.addr_hi + r.addr_lo + r.type + total r.bytes + r.checksum) % 256 == 0

-- `memcpy`
unfoldable pub copy_at : ℕ → List ℕ → (ℕ → ℕ) → ℕ → ℕ
copy_at offset [] buffer = buffer
copy_at offset (b ∷ bs) buffer = copy_at (offset + 1) bs (update buffer offset b)

-- the range of what was written
unfoldable pub mark : ℕ → ℕ → IntelHexImage → IntelHexImage
mark offset end img =
    if not img.any
    then record img { min_offset = offset; max_offset = end; any = true }
    else record img {
      min_offset = if ltb offset img.min_offset then offset else img.min_offset;
      max_offset = if ltb img.max_offset end then end else img.max_offset;
    }

-- the first two data bytes as a number
abbrev base_of : List ℕ → ℕ
base_of bytes = get_or bytes 0 0 * 256 + get_or bytes 1 0

-- the text less its leading blanks
unfoldable pub skip_blanks : List ℕ → List ℕ
skip_blanks [] = []
skip_blanks (c ∷ line) =
    let rest = skip_blanks line in
    if c == b' ' || c == b'\t' || c == b'\r' || c == b'\n' then rest else c ∷ line

-- A `size_t` has `size_range` values, and its sums wrap.
module _ (size_range : ℕ) where
  unfoldable pub store_data : Fields → IntelHexImage → IntelHexStatus × IntelHexImage
  unfolding copy_at mark
  store_data r img =
      let abs_addr = (img.ext_base + (r.addr_hi * 256 + r.addr_lo)) % 2 ^ 32 in
      let offset = abs_addr - img.base_offset in
      let end = (offset + length r.bytes) % size_range in
      if ltb abs_addr img.base_offset || ltb img.capacity end
      then (err_overflow, img)
      else (ok, mark offset end (record img { data_at = copy_at offset r.bytes img.data_at }))

  -- the `switch` on the type
  unfoldable pub apply_record : Fields → IntelHexImage → IntelHexStatus × IntelHexImage
  apply_record r img =
      if r.type == 0x00
      then store_data r img
      else if r.type == 0x01
      then (ok, record img { eof_seen = true })
      else if r.type == 0x04 || r.type == 0x02
      then (if length r.bytes == 2
          then (
            ok,
            record img { ext_base = base_of r.bytes * (if r.type == 0x04 then 2 ^ 16 else 2 ^ 4) },
          )
          else (err_format, img))
      else if r.type == 0x03 || r.type == 0x05
      then (ok, img)
      else (err_unsupported, img)

  unfoldable pub parse_record : Option Fields → IntelHexImage → IntelHexStatus × IntelHexImage
  unfolding checks apply_record
  parse_record none img = (err_format, img)
  parse_record (some r) img = if checks r then apply_record r img else (err_checksum, img)

  unfoldable pub parse_text : List ℕ → IntelHexImage → IntelHexStatus × IntelHexImage
  unfolding parse_record read_fields
  parse_text [] img = (ok, img)
  parse_text (c ∷ line) img =
      if c == b':' then parse_record (read_fields line) img else (err_format, img)

  unfoldable pub intel_hex_parse_line : IntelHexImage → List ℕ → IntelHexStatus × IntelHexImage
  unfolding skip_blanks parse_text
  intel_hex_parse_line img line = parse_text (skip_blanks line) img
