-- ===== src/Hex/RoundTrip/Text.antt =====
-- The text of one record, written and read.
use updi_programmer.Prelude.{
  ℕ, ◌+◌, ◌-◌, ◌*◌, ◌/◌, ◌%◌, ◌<◌, ◌≡◌, refl, ap, sym, ◌∙◌, true, some, List, [], ◌∷◌, ◌++◌, arith,
  ◌==◌,
}
use mathlib.Core.List.{append_assoc, append-nil}
use updi_programmer.Prelude.Lists.{length, take, drop, take_of_length_le, drop-append}
use updi_programmer.Target.Transfer.{IsBytes}
use updi_programmer.Hex.{
  IntelHexImage, Fields, hex_nibble, hex_pair, hex_byte, consed, hex_bytes, bind, read_fields,
  total, checks, apply_record, parse_record, skip_blanks, parse_text, intel_hex_parse_line,
}
use updi_programmer.Hex.Writer.{Buffer, nib, put_byte, put_bytes, record_text}

-- two digits a byte
unfoldable text_of : List ℕ → List ℕ
text_of [] = []
text_of (b ∷ bs) = nib (b / 16) ∷ nib b ∷ text_of bs

put_bytes-text : (bs : List ℕ) (p : Buffer) → (put_bytes bs p).text ≡ p.text ++ text_of bs
unfolding put_bytes put_byte text_of
put_bytes-text [] p = sym (append-nil p.text)
put_bytes-text (b ∷ bs) p =
    put_bytes-text bs (put_byte b p) ∙ append_assoc p.text (nib (b / 16) ∷ nib b ∷ []) (text_of bs)

put_bytes-sum : (bs : List ℕ) (p : Buffer) → (put_bytes bs p).sum % 256 ≡ (p.sum + total bs) % 256
unfolding put_bytes put_byte total
put_bytes-sum [] p = omega arith
put_bytes-sum (b ∷ bs) p = put_bytes-sum bs (put_byte b p) ∙ omega arith

hex_nibble-nib : (v : ℕ) → hex_nibble (nib v) ≡ some (v % 16)
unfolding hex_nibble nib
hex_nibble-nib v = ground arith

hex_byte-text : (v : ℕ) (rest : List ℕ) → v < 256 → hex_byte (nib (v / 16) ∷ nib v ∷ rest) ≡ some v
unfolding hex_byte hex_pair
hex_byte-text v rest h =
    let whole : v / 16 % 16 * 16 + v % 16 ≡ v = omega arith in
    rw (hex_nibble-nib (v / 16), hex_nibble-nib v) (ap some whole)

hex_bytes-text :
    (bs rest : List ℕ) → IsBytes bs → hex_bytes (length bs) (text_of bs ++ rest) ≡ some bs
unfolding hex_bytes text_of consed
hex_bytes-text [] rest v = refl
hex_bytes-text (b ∷ bs) rest v =
    rw (hex_byte-text b (text_of bs ++ rest) v.0, hex_bytes-text bs rest v.1)

length-text_of : (bs : List ℕ) → length (text_of bs) ≡ length bs * 2
unfolding text_of
length-text_of [] = refl
length-text_of (b ∷ bs) = omega (arith, length-text_of bs)

behind_text : (bs rest : List ℕ) → drop (length bs * 2) (text_of bs ++ rest) ≡ rest
behind_text bs rest = rw (length-text_of bs) at (drop-append (text_of bs) rest)

-- the fields that a record is written from
abbrev pub fields : ℕ → ℕ → List ℕ → ℕ → Fields
fields addr type bytes checksum = record {
  addr_hi = addr / 256 % 256;
  addr_lo = addr % 256;
  type = type;
  bytes = bytes;
  checksum = checksum;
}

read_fields-text :
    (addr type c : ℕ) (bs rest : List ℕ)
    → IsBytes bs
    → length bs < 256
    → type < 256
    → c < 256
    → read_fields (
        text_of (length bs ∷ (addr / 256 % 256) ∷ (addr % 256) ∷ type ∷ [])
        ++ (text_of bs ++ (text_of (c ∷ []) ++ rest)))
      ≡ some (fields addr type bs c)
unfolding read_fields text_of bind
read_fields-text addr type c bs rest v n t k =
    let tail = text_of bs ++ (nib (c / 16) ∷ nib c ∷ rest) in
    let behind = behind_text bs (nib (c / 16) ∷ nib c ∷ rest) in
    rw (
      hex_byte-text (length bs) _ n,
      hex_byte-text (addr / 256 % 256) _ (omega arith),
      hex_byte-text (addr % 256) _ (omega arith),
      hex_byte-text type tail t,
      hex_bytes-text bs (nib (c / 16) ∷ nib c ∷ rest) v,
      behind,
      hex_byte-text c rest k,
    )

-- the checksum that ends a record
abbrev pub checksum_of : ℕ → ℕ → List ℕ → ℕ
checksum_of addr type bs =
    let four = length bs ∷ (addr / 256 % 256) ∷ (addr % 256) ∷ type ∷ [] in
    (0x100 - (put_bytes bs (put_bytes four (record { text = b':' ∷ []; sum = 0 }))).sum) % 256

sum_small : (bs : List ℕ) (p : Buffer) → p.sum < 256 → (put_bytes bs p).sum < 256
unfolding put_bytes put_byte
sum_small [] p h = h
sum_small (b ∷ bs) p h = sum_small bs (put_byte b p) (omega arith)

sum_closes :
    (addr type : ℕ) (bs : List ℕ)
    → (length bs + addr / 256 % 256 + addr % 256 + type + total bs + checksum_of addr type bs) % 256
      ≡ 0
sum_closes addr type bs =
    let four = length bs ∷ (addr / 256 % 256) ∷ (addr % 256) ∷ type ∷ [] in
    let start : Buffer = record { text = b':' ∷ []; sum = 0 } in
    let head = put_bytes four start in
    let small = sum_small bs head (sum_small four start (omega arith)) in
    let first : head.sum % 256
        ≡ (0 + (length bs + (addr / 256 % 256 + (addr % 256 + (type + 0))))) % 256 =
      unfold total in put_bytes-sum four start in
    let second = put_bytes-sum bs head in omega (arith, small, first, second)

-- the record, in parts
record_text_parts :
    (addr type : ℕ) (bs : List ℕ)
    → record_text (length bs) addr type bs
      ≡ b':'
        ∷ (text_of (length bs ∷ (addr / 256 % 256) ∷ (addr % 256) ∷ type ∷ [])
            ++ (text_of bs ++ (text_of (checksum_of addr type bs ∷ []) ++ (b'\r' ∷ b'\n' ∷ []))))
unfolding record_text put_byte
record_text_parts addr type bs =
    let four : List ℕ = length bs ∷ (addr / 256 % 256) ∷ (addr % 256) ∷ type ∷ [] in
    let start : Buffer = record { text = b':' ∷ []; sum = 0 } in
    let head = put_bytes four start in
    let body = put_bytes bs head in
    let c = checksum_of addr type bs in
    let all : take (length bs) bs ≡ bs = take_of_length_le (length bs) bs (omega arith) in
    let crlf : List ℕ = b'\r' ∷ b'\n' ∷ [] in
    let digits : List ℕ = nib (c / 16) ∷ nib c ∷ [] in
    let front : List ℕ = b':' ∷ text_of four in
    let text : body.text ≡ front ++ text_of bs =
      put_bytes-text bs head ∙ ap (λ (l : List ℕ). l ++ text_of bs) (put_bytes-text four start) in
    rw all (
      ap (λ (l : List ℕ). l ++ digits ++ crlf) text
      ∙ append_assoc (front ++ text_of bs) digits crlf
      ∙ append_assoc front (text_of bs) (digits ++ crlf)
      ∙ (unfold text_of in refl))

-- A record of fewer than 256 bytes is read as its fields, with a checksum that fits.
pub parse_record_text :
    (size_range addr type : ℕ) (bs : List ℕ) (img : IntelHexImage)
    → IsBytes bs
    → length bs < 256
    → type < 256
    → intel_hex_parse_line size_range img (record_text (length bs) addr type bs)
      ≡ apply_record size_range (fields addr type bs (checksum_of addr type bs)) img
unfolding intel_hex_parse_line skip_blanks parse_text parse_record checks
parse_record_text size_range addr type bs img v n t =
    let c = checksum_of addr type bs in
    let closes : ((length bs + addr / 256 % 256 + addr % 256 + type + total bs + c) % 256 == 0)
        ≡ true =
      rw (sum_closes addr type bs) in
    rw (
      record_text_parts addr type bs,
      read_fields-text addr type c bs (b'\r' ∷ b'\n' ∷ []) v n t (omega arith),
      closes,
    )
