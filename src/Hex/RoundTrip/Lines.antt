-- ===== src/Hex/RoundTrip/Lines.antt =====
-- A whole file, each of its lines handed from the writer to the parser.
use updi_programmer.Prelude.{
  ℕ, suc, ◌+◌, ◌-◌, ◌*◌, ◌/◌, ◌%◌, ◌^◌, ◌<◌, ◌≤◌, ◌≡◌, refl, sym, ◌⊎◌, inl, inr, Bool, true, false,
  List, [], ◌∷◌, ◌++◌, arith, ltb, ◌==◌, if◌then◌else◌, Bool-cases,
}
use native.Mathlib.Nat.{mod-eq_of_lt}
use updi_programmer.Prelude.Lists.{
  length, take, drop, take-append-drop, length-take, take_of_length_le,
}
use updi_programmer.Target.Memory.{update}
use updi_programmer.Target.Transfer.{IsBytes}
use updi_programmer.Hex.{
  IntelHexImage, IntelHexStatus, ok, copy_at, mark, store_data, apply_record, intel_hex_parse_line,
}
use updi_programmer.Hex.Writer.{record_text, emit_record}
use updi_programmer.Hex.RoundTrip.Text.{fields, checksum_of, parse_record_text}

copy_at-append :
    (offset : ℕ) (xs ys : List ℕ) (buffer : ℕ → ℕ)
    → copy_at offset (xs ++ ys) buffer ≡ copy_at (offset + length xs) ys (copy_at offset xs buffer)
unfolding copy_at
copy_at-append offset [] ys buffer = let z : offset + 0 ≡ offset = omega arith in rw z
copy_at-append offset (x ∷ xs) ys buffer =
    let z : offset + suc (length xs) ≡ offset + 1 + length xs = omega arith in
    rw z (copy_at-append (offset + 1) xs ys (update buffer offset x))

pub copy_at-chunks :
    (offset k : ℕ) (bs : List ℕ) (buffer : ℕ → ℕ)
    → k ≤ length bs
    → copy_at (offset + k) (drop k bs) (copy_at offset (take k bs) buffer)
      ≡ copy_at offset bs buffer
copy_at-chunks offset k bs buffer h =
    let taken : length (take k bs) ≡ k = omega (arith, length-take k bs) in
    let whole : take k bs ++ drop k bs ≡ bs = take-append-drop k bs in
    sym (rw (whole, taken) at (copy_at-append offset (take k bs) (drop k bs) buffer))

-- `img'` is `img` with these contents; the range of what was written is left open
pub record Becomes (img' img : IntelHexImage) (data_at : ℕ → ℕ) : Type 0 where
  pub contents : img'.data_at ≡ data_at
  pub capacity : img'.capacity ≡ img.capacity
  pub base_offset : img'.base_offset ≡ img.base_offset
  pub ext_base : img'.ext_base ≡ img.ext_base

mark-Becomes :
    (offset end : ℕ) (img : IntelHexImage) → Becomes (mark offset end img) img img.data_at
unfolding mark
mark-Becomes offset end img = elim (Bool-cases img.any) [
  | inl again ↦
      rw again (record { contents = refl; capacity = refl; base_offset = refl; ext_base = refl })
  | inr first ↦
      rw first (record { contents = refl; capacity = refl; base_offset = refl; ext_base = refl })
]

-- hands a line to the parser
abbrev is_ok : IntelHexStatus → Bool
is_ok ok = true
is_ok _ = false

abbrev pub parse_sink : ℕ → List ℕ → IntelHexImage → Bool × IntelHexImage
parse_sink size_range line img =
    let r = intel_hex_parse_line size_range img line in (is_ok r.0, r.1)

module _ (size_range : ℕ) where
  -- a record that the parser takes lets the writer go on
  pub emit_lem :
      (addr type : ℕ) (bs : List ℕ) (next : IntelHexImage → IntelHexStatus × IntelHexImage)
      (img img' : IntelHexImage)
      → IsBytes bs
      → length bs < 256
      → type < 256
      → apply_record size_range (fields addr type bs (checksum_of addr type bs)) img ≡ (ok, img')
      → emit_record (parse_sink size_range) (length bs) addr type bs next img ≡ next img'
  unfolding emit_record
  emit_lem addr type bs next img img' v n t taken =
      rw (parse_record_text size_range addr type bs img v n t, taken)

  pub data_record :
      (addr upper offset : ℕ) (bs : List ℕ) (img : IntelHexImage)
      → img.ext_base ≡ upper * 2 ^ 16
      → addr < 2 ^ 16
      → upper * 2 ^ 16 + addr < 2 ^ 32
      → upper * 2 ^ 16 + addr ≡ img.base_offset + offset
      → offset + length bs ≤ img.capacity
      → img.capacity < size_range
      → (img' : IntelHexImage) × (apply_record size_range
            (fields addr 0x00 bs (checksum_of addr 0x00 bs))
            img
          ≡ (ok, img'))
        × Becomes img' img (copy_at offset bs img.data_at)
  unfolding apply_record store_data
  data_record addr upper offset bs img ext a u at fits large =
      let absolute : (img.ext_base + (addr / 256 % 256 * 256 + addr % 256)) % 2 ^ 32
          ≡ img.base_offset + offset =
        omega arith in
      let here : img.base_offset + offset - img.base_offset ≡ offset = omega arith in
      let whole : (offset + length bs) % size_range ≡ offset + length bs =
        mod-eq_of_lt (omega arith) in
      let above : ltb (img.base_offset + offset) img.base_offset ≡ false = ground arith in
      let within : ltb img.capacity (offset + length bs) ≡ false = ground arith in
      (
        mark offset (offset + length bs) (record img { data_at = copy_at offset bs img.data_at }),
        rw (absolute, here, whole, above, within),
        (let m =
              mark-Becomes offset (offset + length bs)
                (record img { data_at = copy_at offset bs img.data_at }) in
            record {
              contents = m.contents;
              capacity = m.capacity;
              base_offset = m.base_offset;
              ext_base = m.ext_base;
            }),
      )

  ext_record :
      (upper : ℕ) (img : IntelHexImage)
      → upper < 2 ^ 16
      → apply_record size_range
          (fields 0 0x04
            ((upper / 256 % 256) ∷ (upper % 256) ∷ [])
            (checksum_of 0 0x04 ((upper / 256 % 256) ∷ (upper % 256) ∷ [])))
          img
        ≡ (ok, record img { ext_base = upper * 2 ^ 16 })
  unfolding apply_record
  ext_record upper img h =
      let whole : upper / 256 % 256 * 256 + upper % 256 ≡ upper = omega arith in rw whole

  followed :
      (upper cur : ℕ) (img : IntelHexImage)
      → upper < 0xFFFF
      → (cur ≡ 0xFFFF) ⊎ (img.ext_base ≡ cur * 2 ^ 16)
      → (upper == cur) ≡ true
      → img.ext_base ≡ upper * 2 ^ 16
  followed upper cur img h (inl none_yet) same = absurd (grind arith)
  followed upper cur img h (inr set) same = grind arith

  -- before the data of another 64 KB, a record sets their base
  pub base_step :
      (upper cur : ℕ) (put : IntelHexImage → IntelHexStatus × IntelHexImage) (img : IntelHexImage)
      → upper < 0xFFFF
      → (cur ≡ 0xFFFF) ⊎ (img.ext_base ≡ cur * 2 ^ 16)
      → (img' : IntelHexImage) × ((if upper == cur
            then put img
            else emit_record
                (parse_sink size_range)
                2
                0
                0x04
                ((upper / 256 % 256) ∷ (upper % 256) ∷ [])
                put
                img)
          ≡ put img')
        × Becomes img' (record img { ext_base = upper * 2 ^ 16 }) img.data_at
  base_step upper cur put img h follows = elim (Bool-cases (upper == cur)) [
    | inl same ↦ (
      img,
      rw same,
      record {
        contents = refl;
        capacity = refl;
        base_offset = refl;
        ext_base = followed upper cur img h follows same;
      },
    )
    | inr other ↦ (
      record img { ext_base = upper * 2 ^ 16 },
      rw other (
          emit_lem 0 0x04 ((upper / 256 % 256) ∷ (upper % 256) ∷ []) put img
            (record img { ext_base = upper * 2 ^ 16 }) (omega arith, (omega arith, tt))
            (omega arith) (omega arith) (ext_record upper img (omega arith))),
      record { contents = refl; capacity = refl; base_offset = refl; ext_base = refl },
    )
  ]

  pub emit_take :
      (count addr type : ℕ) (bytes : List ℕ) (next : IntelHexImage → IntelHexStatus × IntelHexImage)
      (img : IntelHexImage)
      → count ≤ length bytes
      → emit_record (parse_sink size_range) count addr type bytes next img
        ≡ emit_record
            (parse_sink size_range)
            (length (take count bytes))
            addr
            type
            (take count bytes)
            next
            img
  unfolding emit_record record_text
  emit_take count addr type bytes next img h =
      let full : length (take count bytes) ≡ count = omega (arith, length-take count bytes) in
      let again : take count (take count bytes) ≡ take count bytes =
        take_of_length_le count (take count bytes) (omega (arith, length-take count bytes)) in
      rw (full, again)
