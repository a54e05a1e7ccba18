-- ===== src/Hex/Writer.antt =====
-- The Intel HEX writer of hex/intel_hex.c, over a sink that is a parameter.
use updi_programmer.Prelude.{
  ℕ, zero, suc, ◌+◌, ◌-◌, ◌/◌, ◌%◌, ◌^◌, Bool, ◌||◌, List, [], ◌∷◌, ◌++◌, ltb, ◌==◌, if◌then◌else◌,
}
use updi_programmer.Prelude.Lists.{length, take, drop}
use updi_programmer.Hex.{IntelHexStatus, ok, err_format}

unfoldable pub nib : ℕ → ℕ
nib v = let low = v % 16 in if ltb low 10 then b'0' + low else b'A' + low - 10

-- the text so far, and the sum of its bytes
pub record Buffer : Type 0 where
  pub text : List ℕ
  pub sum : ℕ

unfoldable pub put_byte : ℕ → Buffer → Buffer
unfolding nib
put_byte v p = record { text = p.text ++ (nib (v / 16) ∷ nib v ∷ []); sum = (p.sum + v) % 256 }

unfoldable pub put_bytes : List ℕ → Buffer → Buffer
unfolding put_byte
put_bytes [] p = p
put_bytes (b ∷ bs) p = put_bytes bs (put_byte b p)

-- the line that `emit_record` hands to the sink, less its NUL
unfoldable pub record_text : ℕ → ℕ → ℕ → List ℕ → List ℕ
unfolding put_bytes put_byte
record_text count addr type bytes =
    let head =
      put_bytes (count ∷ (addr / 256 % 256) ∷ (addr % 256) ∷ type ∷ [])
        (record { text = b':' ∷ []; sum = 0 }) in
    let body = put_bytes (take count bytes) head in
    (put_byte ((0x100 - body.sum) % 256) body).text ++ (b'\r' ∷ b'\n' ∷ [])

-- no more than a line, and not over a boundary of 64 KB
abbrev pub chunk_size : ℕ → ℕ → ℕ → ℕ
chunk_size left bytes_per_line lo =
    let chunk = if ltb bytes_per_line left then bytes_per_line else left in
    if ltb 0x10000 (lo + chunk) then 0x10000 - lo else chunk

module _ {S : Type 0} (sink : List ℕ → S → Bool × S) where
  -- `if(!emit_record(...)) return IntelHexErrFormat;` before what comes next
  unfoldable pub emit_record :
      ℕ → ℕ → ℕ → List ℕ → (S → IntelHexStatus × S) → S → IntelHexStatus × S
  emit_record count addr type bytes next s =
      let r = sink (record_text count addr type bytes) s in
      if r.0 then next r.1 else (err_format, r.1)

  -- `while(off < len)`, on fuel; none of the statuses stands for a loop that was cut short, and the
  -- length is fuel enough
  unfoldable pub write_loop : ℕ → ℕ → ℕ → ℕ → ℕ → List ℕ → S → IntelHexStatus × S
  unfolding emit_record
  write_loop fuel start bytes_per_line cur_upper off [] s = emit_record 0 0 0x01 [] (λ t. (ok, t)) s
  write_loop zero start bytes_per_line cur_upper off (b ∷ rest) s = (err_format, s)
  write_loop (suc fuel) start bytes_per_line cur_upper off (b ∷ rest) s =
      let bytes = b ∷ rest in
      let abs_addr = (start + off) % 2 ^ 32 in
      let upper = abs_addr / 2 ^ 16 in
      let lo = abs_addr % 2 ^ 16 in
      let chunk = chunk_size (length bytes) bytes_per_line lo in
      let put =
        emit_record (chunk % 256) lo 0x00 bytes
          (write_loop fuel start bytes_per_line upper (off + chunk) (drop chunk bytes)) in
      if upper == cur_upper
      then put s
      else emit_record 2 0 0x04 ((upper / 256 % 256) ∷ (upper % 256) ∷ []) put s

  unfoldable pub intel_hex_write : List ℕ → ℕ → ℕ → S → IntelHexStatus × S
  unfolding write_loop
  intel_hex_write bytes start_address bytes_per_line =
      write_loop (length bytes) start_address
        (if bytes_per_line == 0 || ltb 255 bytes_per_line then 16 else bytes_per_line) 0xFFFF 0
        bytes
