-- ===== src/Hex/Bounds.antt =====
-- What lies in an image once a line was parsed.
use updi_programmer.Prelude.{
  ℕ, zero, suc, ◌+◌, ◌-◌, ◌*◌, ◌%◌, ◌^◌, ◌<◌, ◌≤◌, ◌≡◌, refl, ap, ◌∙◌, inl, inr, false, ◌||◌,
  Option, none, some, List, [], ◌∷◌, arith, ltb, ◌==◌, Bool-cases,
}
use native.Mathlib.Nat.{mod-eq_of_lt}
use updi_programmer.Prelude.Lists.{length, drop, get_or}
use updi_programmer.Target.Memory.{update}
use updi_programmer.Hex.{
  IntelHexImage, Fields, copy_at, bind, hex_nibble, hex_pair, hex_byte, consed, hex_bytes,
  read_fields, mark, store_data, apply_record, parse_record, skip_blanks, parse_text, checks,
  intel_hex_parse_line,
}

-- Behind the buffer, and in it but where a record was stored, there is what was there at first.
pub record Tracks (fill : ℕ) (img : IntelHexImage) : Type 0 where
  pub inside : img.max_offset ≤ img.capacity
  pub untouched : img.any ≡ false → (j : ℕ) → img.data_at j ≡ fill
  pub below : (j : ℕ) → j < img.min_offset → img.data_at j ≡ fill
  pub above : (j : ℕ) → img.max_offset ≤ j → img.data_at j ≡ fill

copy_at-below :
    (offset : ℕ) (bs : List ℕ) (buffer : ℕ → ℕ) (j : ℕ)
    → j < offset
    → copy_at offset bs buffer j ≡ buffer j
unfolding copy_at
copy_at-below offset [] buffer j h = refl
copy_at-below offset (b ∷ bs) buffer j h =
    let other : update buffer offset b j ≡ buffer j = ground arith in
    copy_at-below (offset + 1) bs (update buffer offset b) j (omega arith) ∙ other

copy_at-above :
    (offset : ℕ) (bs : List ℕ) (buffer : ℕ → ℕ) (j : ℕ)
    → offset + length bs ≤ j
    → copy_at offset bs buffer j ≡ buffer j
unfolding copy_at
copy_at-above offset [] buffer j h = refl
copy_at-above offset (b ∷ bs) buffer j h =
    let other : update buffer offset b j ≡ buffer j = ground arith in
    copy_at-above (offset + 1) bs (update buffer offset b) j (omega arith) ∙ other

-- a read that succeeds
bind_inv :
    {A B : Type 0} (m : Option A) (k : A → Option B) {b : B}
    → bind m k ≡ some b
    → (a : A) × (m ≡ some a) × (k a ≡ some b)
unfolding bind
bind_inv none k h = cc
bind_inv (some a) k h = (a, refl, h)

hex_nibble_small : (c : ℕ) {v : ℕ} → hex_nibble c ≡ some v → v < 16
unfolding hex_nibble
hex_nibble_small c h = ground arith

hex_pair_small :
    (hi lo : Option ℕ) {v : ℕ}
    → ((x : ℕ) → hi ≡ some x → x < 16)
    → ((x : ℕ) → lo ≡ some x → x < 16)
    → hex_pair hi lo ≡ some v
    → v < 256
unfolding hex_pair
hex_pair_small (some x) (some y) p q h = let px = p x refl in let py = q y refl in ground arith
hex_pair_small (some x) none p q h = cc
hex_pair_small none lo p q h = cc

hex_byte_small : (p : List ℕ) {v : ℕ} → hex_byte p ≡ some v → v < 256
unfolding hex_byte
hex_byte_small p h =
    hex_pair_small (hex_nibble (get_or p 0 0)) (hex_nibble (get_or p 1 0))
      (λ x e. hex_nibble_small (get_or p 0 0) e) (λ x e. hex_nibble_small (get_or p 1 0) e) h

consed_inv :
    (m : Option ℕ) (ms : Option (List ℕ)) {bs : List ℕ}
    → consed m ms ≡ some bs
    → (xs : List ℕ) × (ms ≡ some xs) × (length bs ≡ suc (length xs))
unfolding consed
consed_inv (some x) (some xs) {bs} h = let same : x ∷ xs ≡ bs = cc in (xs, refl, rw (← same))
consed_inv (some x) none h = cc
consed_inv none ms h = cc

length-hex_bytes : (n : ℕ) (p : List ℕ) {bs : List ℕ} → hex_bytes n p ≡ some bs → length bs ≡ n
unfolding hex_bytes
length-hex_bytes zero p {bs} h = let same : [] ≡ bs = cc in rw (← same)
length-hex_bytes (suc n) p h =
    let (xs, here, size) = consed_inv (hex_byte p) (hex_bytes n (drop 2 p)) h in
    size ∙ ap suc (length-hex_bytes n (drop 2 p) here)

read_fields_short : (line : List ℕ) {r : Fields} → read_fields line ≡ some r → length r.bytes < 256
unfolding read_fields
read_fields_short line {r} h =
    let (n, count, h1) = bind_inv (hex_byte line) _ h in
    let (hi, is_hi, h2) = bind_inv (hex_byte (drop 2 line)) _ h1 in
    let (lo, is_lo, h3) = bind_inv (hex_byte (drop 4 line)) _ h2 in
    let (t, is_type, h4) = bind_inv (hex_byte (drop 6 line)) _ h3 in
    let (bs, are_bytes, h5) = bind_inv (hex_bytes n (drop 8 line)) _ h4 in
    let (c, is_sum, h6) = bind_inv (hex_byte (drop (n * 2) (drop 8 line))) _ h5 in
    let size : length bs ≡ n = length-hex_bytes n (drop 8 line) are_bytes in
    let small : n < 256 = hex_byte_small line count in
    let same : bs ≡ r.bytes = cc in rw (← same, size) small

module _ (fill : ℕ) where
  mark-Tracks :
      (offset end : ℕ) (bs : List ℕ) (img : IntelHexImage)
      → Tracks fill img
      → end ≡ offset + length bs
      → end ≤ img.capacity
      → Tracks fill (mark offset end (record img { data_at = copy_at offset bs img.data_at }))
  unfolding mark
  mark-Tracks offset end bs img t e b = elim (Bool-cases img.any) [
    | inl again ↦ rw again (record {
      inside = let i = t.inside in ground arith;
      untouched = λ z. cc;
      below =
          λ j p. copy_at-below offset bs img.data_at j (ground arith) ∙ t.below j (ground arith);
      above =
          λ j p. copy_at-above offset bs img.data_at j (ground arith) ∙ t.above j (ground arith);
    })
    | inr first ↦ rw first (record {
      inside = b;
      untouched = λ z. cc;
      below = λ j p. copy_at-below offset bs img.data_at j p ∙ t.untouched first j;
      above = λ j p. copy_at-above offset bs img.data_at j (omega arith) ∙ t.untouched first j;
    })
  ]

module _ (fill size_range : ℕ) (large : 2 ^ 33 ≤ size_range) where
  store_data-Tracks :
      (r : Fields) (img : IntelHexImage)
      → length r.bytes < 256
      → Tracks fill img
      → Tracks fill (store_data size_range r img).1
  unfolding store_data
  store_data-Tracks r img short t =
      let abs_addr = (img.ext_base + (r.addr_hi * 256 + r.addr_lo)) % 2 ^ 32 in
      let offset = abs_addr - img.base_offset in
      let whole : (offset + length r.bytes) % size_range ≡ offset + length r.bytes =
        mod-eq_of_lt (omega arith) in
      elim (Bool-cases (
        ltb abs_addr img.base_offset
        || ltb img.capacity ((offset + length r.bytes) % size_range))) [
          | inl refused ↦ rw refused t
          | inr stored ↦ rw stored (
              mark-Tracks fill offset ((offset + length r.bytes) % size_range) r.bytes img t whole
                (ground arith))
        ]

  apply_record-Tracks :
      (r : Fields) (img : IntelHexImage)
      → length r.bytes < 256
      → Tracks fill img
      → Tracks fill (apply_record size_range r img).1
  unfolding apply_record
  apply_record-Tracks r img short t =
      let stored = store_data-Tracks r img short t in
      elim (Bool-cases (r.type == 0x00)) [
        | inl is_data ↦ rw is_data stored
        | inr not_data ↦ rw not_data (elim (Bool-cases (r.type == 0x01)) [
          | inl is_eof ↦ rw is_eof (record {
            inside = t.inside;
            untouched = t.untouched;
            below = t.below;
            above = t.above;
          })
          | inr not_eof ↦ rw not_eof (elim (Bool-cases (r.type == 0x04 || r.type == 0x02)) [
            | inl is_ext ↦ rw is_ext (elim (Bool-cases (length r.bytes == 2)) [
              | inl two ↦ rw two (record {
                inside = t.inside;
                untouched = t.untouched;
                below = t.below;
                above = t.above;
              })
              | inr other ↦ rw other t
            ])
            | inr not_ext ↦ rw not_ext (elim (Bool-cases (r.type == 0x03 || r.type == 0x05)) [
              | inl is_start ↦ rw is_start t
              | inr unknown ↦ rw unknown t
            ])
          ])
        ])
      ]

  parse_record-Tracks :
      (fields : Option Fields) (img : IntelHexImage)
      → ((r : Fields) → fields ≡ some r → length r.bytes < 256)
      → Tracks fill img
      → Tracks fill (parse_record size_range fields img).1
  unfolding parse_record
  parse_record-Tracks none img short t = t
  parse_record-Tracks (some r) img short t = elim (Bool-cases (checks r)) [
    | inl good ↦ rw good (apply_record-Tracks r img (short r refl) t)
    | inr bad ↦ rw bad t
  ]

  parse_text-Tracks :
      (line : List ℕ) (img : IntelHexImage)
      → Tracks fill img
      → Tracks fill (parse_text size_range line img).1
  unfolding parse_text
  parse_text-Tracks [] img t = t
  parse_text-Tracks (c ∷ line) img t = elim (Bool-cases (c == b':')) [
    | inl colon ↦
        rw colon (parse_record-Tracks (read_fields line) img (λ r e. read_fields_short line e) t)
    | inr other ↦ rw other t
  ]

  -- Where a `size_t` has at least 2^33 values, a parsed line keeps this of an image, whatever the
  -- line: what was stored ends within the buffer, and outside of what was stored, behind the buffer
  -- too, there is what was there at first.
  pub intel_hex_parse_line-Tracks :
      (line : List ℕ) (img : IntelHexImage)
      → Tracks fill img
      → Tracks fill (intel_hex_parse_line size_range img line).1
  unfolding intel_hex_parse_line
  intel_hex_parse_line-Tracks line img t = parse_text-Tracks (skip_blanks line) img t
