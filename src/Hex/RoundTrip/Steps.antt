-- ===== src/Hex/RoundTrip/Steps.antt =====
-- The steps of the writer's loop in hex/intel_hex.c, with the parser behind the sink.
use updi_programmer.Prelude.{
  ℕ, suc, ◌+◌, ◌-◌, ◌*◌, ◌/◌, ◌%◌, ◌^◌, ◌<◌, ◌≤◌, ◌≡◌, refl, ap, ◌∙◌, true, List, [], ◌∷◌, arith,
  ◌==◌, if◌then◌else◌,
}
use native.Mathlib.Nat.{mod-eq_of_lt}
use updi_programmer.Prelude.Lists.{length, take, drop, length-take, length-drop}
use updi_programmer.Target.Transfer.{IsBytes}
use updi_programmer.Target.Emulator.Write.{take-IsBytes}
use updi_programmer.Hex.{IntelHexImage, IntelHexStatus, ok, copy_at, apply_record}
use updi_programmer.Hex.Writer.{emit_record, chunk_size, write_loop}
use updi_programmer.Hex.RoundTrip.Lines.{
  copy_at-chunks, Becomes, parse_sink, emit_lem, data_record, emit_take,
}

pub chunk_size_fits :
    (left per_line lo : ℕ)
    → 0 < left
    → 0 < per_line
    → lo < 2 ^ 16
    → let chunk = chunk_size left per_line lo in
      (0 < chunk) × (chunk ≤ per_line) × (chunk ≤ left) × (lo + chunk ≤ 2 ^ 16)
chunk_size_fits left per_line lo p q r = ground arith

-- two copies, one behind the other
pub glue :
    (k : ℕ) (bs : List ℕ) {o o' o1 : ℕ} {d d0 d1 d2 : ℕ → ℕ}
    → k ≤ length bs
    → o' ≡ o
    → o1 ≡ o + k
    → d0 ≡ d
    → d1 ≡ copy_at o' (take k bs) d0
    → d2 ≡ copy_at o1 (drop k bs) d1
    → d2 ≡ copy_at o bs d
glue k bs {o} {o'} {o1} {d} h p q r first second =
    rw (second, first, r, p, q) (copy_at-chunks o k bs d h)

module _ (size_range start per_line : ℕ) where
  -- what the image must have room for
  pub record Room (off n : ℕ) (img : IntelHexImage) : Type 0 where
    pub below_top : start + off + n ≤ 0xFFFF0000
    pub above_base : img.base_offset ≤ start
    pub fits : start + off + n ≤ img.base_offset + img.capacity
    pub countable : img.capacity < size_range

  -- one data record
  pub data_step :
      (addr chunk upper : ℕ) (bytes : List ℕ)
      (next : IntelHexImage → IntelHexStatus × IntelHexImage) (off : ℕ) (img : IntelHexImage)
      → IsBytes bytes
      → chunk ≤ length bytes
      → chunk < 256
      → Room off (length bytes) img
      → img.ext_base ≡ upper * 2 ^ 16
      → upper * 2 ^ 16 + addr ≡ start + off
      → addr < 2 ^ 16
      → (img' : IntelHexImage) × (emit_record
            (parse_sink size_range)
            (chunk % 256)
            addr
            0x00
            bytes
            next
            img
          ≡ next img')
        × Becomes img' img (copy_at (start + off - img.base_offset) (take chunk bytes) img.data_at)
  data_step addr chunk upper bytes next off img v c small room ext at a =
      let b = room.above_base in
      let f = room.fits in
      let top = room.below_top in
      let xs = take chunk bytes in
      let offset = start + off - img.base_offset in
      let size : length xs ≤ chunk = omega (arith, length-take chunk bytes) in
      let byte : chunk % 256 ≡ chunk = omega arith in
      let (img', taken, becomes) =
        data_record size_range addr upper offset xs img ext a (omega arith) (omega arith)
          (omega arith) room.countable in
      (
        img',
        ap (λ (n : ℕ). emit_record (parse_sink size_range) n addr 0x00 bytes next img) byte
            ∙ emit_take size_range chunk addr 0x00 bytes next img c
            ∙ emit_lem size_range addr 0x00 xs next img img' (take-IsBytes chunk bytes v)
                (omega arith) (omega arith) taken,
        becomes,
      )

  pub eof_step :
      (img : IntelHexImage)
      → (img' : IntelHexImage) × (emit_record (parse_sink size_range) 0 0 0x01 [] (λ t. (ok, t)) img
          ≡ (ok, img'))
        × (img'.data_at ≡ img.data_at)
        × (img'.eof_seen ≡ true)
  unfolding apply_record
  eof_step img = (
    record img { eof_seen = true },
    emit_lem size_range 0 0x01 [] (λ t. (ok, t)) img (record img { eof_seen = true }) tt
        (omega arith) (omega arith) refl,
    refl,
    refl,
  )

  -- the room of an image with the same buffer
  pub moved :
      (off n : ℕ) (img img' : IntelHexImage)
      → Room off n img
      → img'.base_offset ≡ img.base_offset
      → img'.capacity ≡ img.capacity
      → Room off n img'
  moved off n img img' room b c =
      let above = room.above_base in
      let fit = room.fits in
      let size = room.countable in
      record {
        below_top = room.below_top;
        above_base = omega arith;
        fits = omega arith;
        countable = omega arith;
      }

  pub further :
      (off chunk : ℕ) (bs : List ℕ) (img img' : IntelHexImage)
      → Room off (length bs) img
      → chunk ≤ length bs
      → img'.base_offset ≡ img.base_offset
      → img'.capacity ≡ img.capacity
      → Room (off + chunk) (length (drop chunk bs)) img'
  further off chunk bs img img' room k b c =
      let m = moved off (length bs) img img' room b c in
      let top = m.below_top in
      let fit = m.fits in
      record {
        below_top = omega (arith, length-drop chunk bs);
        above_base = m.above_base;
        fits = omega (arith, length-drop chunk bs);
        countable = m.countable;
      }

  -- one round of the loop
  pub round :
      (fuel off cur b : ℕ) (rest : List ℕ) (img : IntelHexImage)
      → start + off < 2 ^ 32
      → let bs = b ∷ rest in
        let addr = (start + off) % 2 ^ 16 in
        let upper = (start + off) / 2 ^ 16 in
        let chunk = chunk_size (length bs) per_line addr in
        let put = emit_record (parse_sink size_range) (chunk % 256) addr 0x00 bs (
          write_loop
            (parse_sink size_range)
            fuel
            start
            per_line
            upper
            (off + chunk)
            (drop chunk bs)) in
        write_loop (parse_sink size_range) (suc fuel) start per_line cur off bs img ≡ (
          if upper == cur
          then put img
          else emit_record
              (parse_sink size_range)
              2
              0
              0x04
              ((upper / 256 % 256) ∷ (upper % 256) ∷ [])
              put
              img)
  unfolding write_loop
  round fuel off cur b rest img h =
      let absolute : (start + off) % 2 ^ 32 ≡ start + off = mod-eq_of_lt h in rw absolute
