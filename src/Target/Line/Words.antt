-- ===== src/Target/Line/Words.antt =====
-- Block stores of words through the pointer, run on the line: the target does not acknowledge them.
use updi_programmer.Prelude.{
  ℕ, zero, suc, ◌+◌, ◌-◌, ◌*◌, ◌%◌, ◌^◌, ◌<◌, ◌≡◌, refl, List, [], ◌∷◌, ◌++◌, arith, leb,
  if◌then◌else◌,
}
use mathlib.Core.List.{append_assoc, append-nil}
use updi_programmer.Prelude.Lists.{length, drop_of_length_le}
use updi_programmer.Exec.{ok}
use updi_programmer.Phys.{send}
use updi_programmer.Link.Base.{st_ptr_inc16, disable_ack, enable_ack, stcs}
use updi_programmer.Target.Memory.{Preset, mem_write, update}
use updi_programmer.Target.Device.{Core, Phase, store_all, apply_stcs}
use updi_programmer.Target.Line.{line, quiet, emu_send}
use updi_programmer.Target.Line.Direct.{phy}

-- the decoder inside a block of words, with `k` bytes to come
abbrev pub word_phase : ℕ → Phase
word_phase zero = Phase.idle
word_phase (suc k) = Phase.stinc16 (suc k)

pub word_phase-suc :
    (k : ℕ) → (if leb (suc k) 1 then Phase.idle else Phase.stinc16 (suc k - 1)) ≡ word_phase k
word_phase-suc zero = refl
word_phase-suc (suc k) = ground arith

module _ (preset : Preset) (baud : ℕ) where
  -- the bytes of the words go to memory, and only their echo comes back
  emu_send-words :
      (bs rx : List ℕ) (e : Core)
      → e.ptr + length bs < 2 ^ 32
      → emu_send preset bs (line e (word_phase (length bs)) rx)
        ≡ line
            (record e { memory = store_all preset e.ptr bs e.memory; ptr = e.ptr + length bs })
            Phase.idle
            (rx ++ bs)
  unfolding emu_send store_all
  emu_send-words [] rx e h = let z : e.ptr + 0 ≡ e.ptr = omega arith in rw (z, append-nil)
  emu_send-words (b ∷ bs) rx e h =
      let next : (e.ptr + 1) % 2 ^ 32 ≡ e.ptr + 1 = omega arith in
      let total : e.ptr + 1 + length bs ≡ e.ptr + suc (length bs) = omega arith in
      rw (word_phase-suc (length bs), next, ← total, ← append_assoc rx (b ∷ []) bs)
        (emu_send-words bs (rx ++ b ∷ [])
          (record e { memory = mem_write preset e.ptr b e.memory; ptr = e.ptr + 1 }) (omega arith))

  -- A block of three bytes or more, after a repeat of as many words; CTRLA is written twice.
  pub st_ptr_inc16_lem :
      (b c d : ℕ) (rest : List ℕ) (e : Core)
      → (e.repeat_next + 1) * 2 ≡ length (b ∷ c ∷ d ∷ rest)
      → e.ptr + length (b ∷ c ∷ d ∷ rest) < 2 ^ 32
      → st_ptr_inc16 (phy preset baud) (b ∷ c ∷ d ∷ rest) (quiet e) ≡ (
        ok tt,
        quiet (record e {
          memory = store_all preset e.ptr (b ∷ c ∷ d ∷ rest) e.memory;
          ptr = e.ptr + length (b ∷ c ∷ d ∷ rest);
          repeat_next = 0;
          cs = update (update e.cs 2 0x88) 2 0x80;
        }),
      )
  unfolding st_ptr_inc16 disable_ack enable_ack stcs emu_send apply_stcs send
  st_ptr_inc16_lem b c d rest e r h =
      let bs = b ∷ c ∷ d ∷ rest in
      rw (
        r,
        emu_send-words bs [] (record e { repeat_next = 0; cs = update e.cs 2 0x88 }) h,
        drop_of_length_le (length bs) bs (omega arith),
      )
