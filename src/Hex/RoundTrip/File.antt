-- ===== src/Hex/RoundTrip/File.antt =====
-- A file of the writer of hex/intel_hex.c, read by the parser line by line.
use updi_programmer.Prelude.{
  ℕ, zero, suc, ◌+◌, ◌-◌, ◌*◌, ◌/◌, ◌%◌, ◌^◌, ◌<◌, ◌≤◌, ◌≡◌, refl, ap, ◌∙◌, ◌⊎◌, inl, inr, true,
  ◌||◌, List, [], ◌∷◌, arith, ltb, ◌==◌, if◌then◌else◌,
}
use updi_programmer.Prelude.Lists.{length, drop, length-drop}
use updi_programmer.Target.Transfer.{IsBytes}
use updi_programmer.Target.Emulator.Write.{drop-IsBytes}
use updi_programmer.Hex.{IntelHexImage, ok, copy_at}
use updi_programmer.Hex.Writer.{emit_record, chunk_size, write_loop, intel_hex_write}
use updi_programmer.Hex.RoundTrip.Lines.{parse_sink, base_step}
use updi_programmer.Hex.RoundTrip.Steps.{
  Room, chunk_size_fits, glue, eof_step, moved, further, round, data_step,
}

module _ (size_range start per_line : ℕ) where
  write_loop_lem :
      (fuel off cur : ℕ) (bs : List ℕ) (img : IntelHexImage)
      → 0 < per_line
      → per_line < 256
      → IsBytes bs
      → length bs ≤ fuel
      → Room size_range start per_line off (length bs) img
      → (cur ≡ 0xFFFF) ⊎ (img.ext_base ≡ cur * 2 ^ 16)
      → (img' : IntelHexImage) × (write_loop
            (parse_sink size_range)
            fuel
            start
            per_line
            cur
            off
            bs
            img
          ≡ (ok, img'))
        × (img'.data_at ≡ copy_at (start + off - img.base_offset) bs img.data_at)
        × (img'.eof_seen ≡ true)
  unfolding write_loop copy_at
  write_loop_lem zero off cur [] img p q v f room follows = eof_step size_range start per_line img
  write_loop_lem (suc fuel) off cur [] img p q v f room follows =
      eof_step size_range start per_line img
  write_loop_lem zero off cur (x ∷ xs) img p q v f room follows = absurd (omega arith)
  write_loop_lem (suc fuel) off cur (x ∷ xs) img p q v f room follows =
      let bs = x ∷ xs in
      let b = room.above_base in
      let fit = room.fits in
      let top = room.below_top in
      let addr = (start + off) % 2 ^ 16 in
      let upper = (start + off) / 2 ^ 16 in
      let chunk = chunk_size (length bs) per_line addr in
      let sizes = chunk_size_fits (length bs) per_line addr (omega arith) p (omega arith) in
      let next =
        write_loop (parse_sink size_range) fuel start per_line upper (off + chunk)
          (drop chunk bs) in
      let put = emit_record (parse_sink size_range) (chunk % 256) addr 0x00 bs next in
      let (img0, based, becomes0) = base_step size_range upper cur put img (omega arith) follows in
      let room0 : Room size_range start per_line off (length bs) img0 =
        moved size_range start per_line off (length bs) img img0 room becomes0.base_offset
          becomes0.capacity in
      let (img1, stored, becomes1) =
        data_step size_range start per_line addr chunk upper bs next off img0 v sizes.2
          (omega arith) room0 becomes0.ext_base (omega arith) (omega arith) in
      let room1 : Room size_range start per_line (off + chunk) (length (drop chunk bs)) img1 =
        further size_range start per_line off chunk bs img0 img1 room0 sizes.2 becomes1.base_offset
          becomes1.capacity in
      let (img', ends, contents, eof) =
        write_loop_lem fuel (off + chunk) upper (drop chunk bs) img1 p q (drop-IsBytes chunk bs v)
          (omega (arith, length-drop chunk bs)) room1
          (inr (becomes1.ext_base ∙ becomes0.ext_base)) in
      let same_offset : start + off - img0.base_offset ≡ start + off - img.base_offset =
        ap (λ (n : ℕ). start + off - n) becomes0.base_offset in
      let next_offset : start + (off + chunk) - img1.base_offset
          ≡ start + off - img.base_offset + chunk =
        let same = becomes1.base_offset ∙ becomes0.base_offset in omega arith in
      (
        img',
        round size_range start per_line fuel off cur x xs img (omega arith) ∙ based ∙ stored ∙ ends,
        glue chunk bs sizes.2 same_offset next_offset becomes0.contents becomes1.contents contents,
        eof,
      )

line_length : (n : ℕ) → let k = if n == 0 || ltb 255 n then 16 else n in (0 < k) × (k < 256)
line_length n = ground arith

-- Bytes that the writer writes, whatever the bytes per line, and whose lines go one by one to the
-- parser, are all taken: the image then holds the bytes from their address on, less the base offset,
-- holds what it held elsewhere, and has seen the end of the file. The image has room for the bytes,
-- fewer bytes than a `size_t` has values, and the bytes end at most at 0xFFFF0000.
pub intel_hex_write-parse_line :
    (size_range start per_line : ℕ) (bs : List ℕ) (img : IntelHexImage)
    → IsBytes bs
    → start + length bs ≤ 0xFFFF0000
    → img.base_offset ≤ start
    → start + length bs ≤ img.base_offset + img.capacity
    → img.capacity < size_range
    → (img' : IntelHexImage) × (intel_hex_write (parse_sink size_range) bs start per_line img
        ≡ (ok, img'))
      × (img'.data_at ≡ copy_at (start - img.base_offset) bs img.data_at)
      × (img'.eof_seen ≡ true)
unfolding intel_hex_write
intel_hex_write-parse_line size_range start per_line bs img v top base fit size =
    let width = line_length per_line in
    let from : start + 0 ≡ start = omega arith in
    let (img', ends, contents, eof) =
      write_loop_lem size_range start (if per_line == 0 || ltb 255 per_line then 16 else per_line)
        (length bs) 0 0xFFFF bs img width.0 width.1 v (omega arith)
        (record {
          below_top = omega arith;
          above_base = base;
          fits = omega arith;
          countable = size;
        })
        (inl refl) in
    (img', ends, contents ∙ ap (λ (n : ℕ). copy_at (n - img.base_offset) bs img.data_at) from, eof)
