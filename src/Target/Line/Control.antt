-- ===== src/Target/Line/Control.antt =====
-- The instructions of link.py that carry no address, run on the line: the control and status space,
-- the keys, the SIB and the start of a session.
use updi_programmer.Prelude.{
  ℕ, zero, suc, ◌+◌, ◌/◌, ◌%◌, ◌<◌, ◌≡◌, refl, ap, true, List, [], ◌∷◌, arith, bit_or, ◌==◌,
}
use updi_programmer.Prelude.Lists.{length}
use updi_programmer.Prelude.Bytes.{passes, passes_sound}
use updi_programmer.Exec.{ok, raise_if, try_except}
use updi_programmer.Phys.{send, receive, sib}
use updi_programmer.Constants.{updi_phy_sync}
use updi_programmer.Link.Base.{
  Exceptions, ldcs, stcs, key, read_sib, enable_ack, init_datalink, check_datalink,
  init_session_parameters,
}
use updi_programmer.Target.Memory.{Preset, update}
use updi_programmer.Target.Device.{Core, apply_stcs, accept_key, sib_bytes}
use updi_programmer.Target.Line.{quiet, emu_send}
use updi_programmer.Target.Line.Direct.{phy}
use updi_programmer.Target.Line.Block.{rx_push-append}

load_table : passes (λ i. bit_or 0x80 i == 0x80 + i) 16 ≡ true
unfolding passes
load_table = refl

store_table : passes (λ i. bit_or 0xC0 i == 0xC0 + i) 16 ≡ true
unfolding passes
store_table = refl

load_opcode : (i : ℕ) → i < 16 → bit_or 0x80 i ≡ 0x80 + i
load_opcode i h =
    let t : (bit_or 0x80 i == 0x80 + i) ≡ true =
      passes_sound (λ i. bit_or 0x80 i == 0x80 + i) 16 i h load_table in
    ground arith

store_opcode : (i : ℕ) → i < 16 → bit_or 0xC0 i ≡ 0xC0 + i
store_opcode i h =
    let t : (bit_or 0xC0 i == 0xC0 + i) ≡ true =
      passes_sound (λ i. bit_or 0xC0 i == 0xC0 + i) 16 i h store_table in
    ground arith

length-sib_bytes : (preset : Preset) (n : ℕ) (s : List ℕ) → length (sib_bytes preset n s) ≡ n
unfolding sib_bytes
length-sib_bytes preset zero s = refl
length-sib_bytes preset (suc n) [] = ap suc (length-sib_bytes preset n [])
length-sib_bytes preset (suc n) (c ∷ cs) = ap suc (length-sib_bytes preset n cs)

module _ (preset : Preset) (baud : ℕ) where
  pub ldcs_lem :
      (a : ℕ) (e : Core) → ldcs (phy preset baud) a (quiet e) ≡ (ok (e.cs (a % 16)), quiet e)
  unfolding ldcs send receive emu_send raise_if
  ldcs_lem a e =
      let op : bit_or 0x80 (a % 16) ≡ 0x80 + a % 16 = load_opcode (a % 16) (omega arith) in
      let grp : (0x80 + a % 16) / 32 ≡ 4 = omega arith in
      let low : (0x80 + a % 16) % 16 ≡ a % 16 = omega arith in rw (op, grp, low)

  pub stcs_lem :
      (a v : ℕ) (e : Core)
      → stcs (phy preset baud) a v (quiet e) ≡ (ok tt, quiet (apply_stcs (a % 16) v e))
  unfolding stcs send receive emu_send
  stcs_lem a v e =
      let op : bit_or 0xC0 (a % 16) ≡ 0xC0 + a % 16 = store_opcode (a % 16) (omega arith) in
      let grp : (0xC0 + a % 16) / 32 ≡ 6 = omega arith in
      let low : (0xC0 + a % 16) % 16 ≡ a % 16 = omega arith in rw (op, grp, low)

  pub key_lem :
      (a b c d f g h i : ℕ) (e : Core)
      → let bytes = a ∷ b ∷ c ∷ d ∷ f ∷ g ∷ h ∷ i ∷ [] in
        key (phy preset baud) 0 bytes (quiet e) ≡ (ok tt, quiet (accept_key bytes e))
  unfolding key send receive emu_send raise_if
  key_lem a b c d f g h i e = refl

  pub read_sib_lem :
      (e : Core)
      → read_sib (phy preset baud) (quiet e) ≡ (ok (sib_bytes preset 32 preset.sib), quiet e)
  unfolding read_sib sib send emu_send
  read_sib_lem e =
      let waits : length (sib_bytes preset 32 preset.sib) ≡ 32 =
        length-sib_bytes preset 32 preset.sib in
      let fits =
        rx_push-append (updi_phy_sync ∷ 0xE6 ∷ []) (sib_bytes preset 32 preset.sib) (omega arith) in
      rw fits

  pub init_datalink_lem :
      (exceptions : Exceptions) (e : Core)
      → 0 < e.cs 0
      → init_datalink exceptions (phy preset baud) (quiet e)
        ≡ (ok tt, quiet (record e { cs = update (update e.cs 3 0x08) 2 0x80 }))
  unfolding init_datalink init_session_parameters check_datalink stcs ldcs send receive emu_send
      raise_if enable_ack try_except apply_stcs
  init_datalink_lem exceptions e h = ground arith
