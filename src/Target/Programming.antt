-- ===== src/Target/Programming.antt =====
-- Entering the programming mode, on the line: the key, the reset and the status of the target.
use updi_programmer.Prelude.{
  ℕ, suc, ◌+◌, ◌-◌, ◌%◌, ◌<◌, ◌≡◌, refl, Bool, true, false, not, ◌&&◌, arith, bit_or, ltb,
  if◌then◌else◌, Bool-cases, inl, inr,
}
use updi_programmer.Prelude.Bytes.{passes, passes_sound}
use updi_programmer.Exec.{ok, raise_if}
use updi_programmer.Serial.{Clock}
use updi_programmer.Phys.{send, receive}
use updi_programmer.Link.{Datalink, datalink16, datalink24}
use updi_programmer.Link.Base.{Exceptions, ldcs, stcs, key}
use updi_programmer.ReadWrite.{ReadWrite, updi_read_write}
use updi_programmer.Timeout.{poll_until, poll_loop, start_timeout, expired}
use updi_programmer.Nvm.Controller.{has_flags}
use updi_programmer.App.Mode
use updi_programmer.Constants.{updi_key_nvm}
use updi_programmer.Target.Memory.{Preset}
use updi_programmer.Target.Device.{Core, apply_stcs, accept_key}
use updi_programmer.Target.Line.{Line, quiet, emu_send}
use updi_programmer.Target.Line.Direct.{phy}

-- the two bits of SYS_STATUS: in programming mode, and locked
abbrev pub is_programming : Core → Bool
is_programming e = has_flags (e.cs 0x0B) 8

abbrev pub is_locked : Core → Bool
is_locked e = has_flags (e.cs 0x0B) 1

-- the status that an armed NVM key leaves when the reset is released
abbrev opened : ℕ → ℕ
opened status = bit_or status 8 - bit_or status 8 % 2

abbrev status_test : ℕ → Bool
status_test status = has_flags (opened status) 8 && not (has_flags (opened status) 1)

status_table : passes status_test 256 ≡ true
unfolding passes
status_table = refl

pub key_table : passes (λ status. has_flags (bit_or status 16) 16) 256 ≡ true
unfolding passes
key_table = refl

module _ (preset : Preset) (baud : ℕ) where
  sys_status_lem : (e : Core) → ldcs (phy preset baud) 0x0B (quiet e) ≡ (ok (e.cs 0x0B), quiet e)
  unfolding ldcs send receive emu_send raise_if
  sys_status_lem e = refl

  key_status_lem : (e : Core) → ldcs (phy preset baud) 0x07 (quiet e) ≡ (ok (e.cs 0x07), quiet e)
  unfolding ldcs send receive emu_send raise_if
  key_status_lem e = refl

  stcs_reset_lem :
      (v : ℕ) (e : Core)
      → stcs (phy preset baud) 0x08 v (quiet e) ≡ (ok tt, quiet (apply_stcs 0x08 v e))
  unfolding stcs send receive emu_send
  stcs_reset_lem v e = refl

  nvm_key_lem :
      (e : Core)
      → key (phy preset baud) 0 updi_key_nvm (quiet e) ≡ (ok tt, quiet (accept_key updi_key_nvm e))
  unfolding key send receive emu_send raise_if accept_key
  nvm_key_lem e = refl

  -- a link of either width
  abbrev pub link : Exceptions → Bool → Datalink Line
  link exceptions true = datalink16 exceptions (phy preset baud)
  link exceptions false = datalink24 exceptions (phy preset baud)

  abbrev pub access : Exceptions → Bool → ReadWrite Line
  access exceptions narrow = updi_read_write (link exceptions narrow)

-- A clock that stands still while the line is used.
pub record Still (clock : Clock Line) (t : ℕ) : Type 0 where
  pub reads : (l : Line) → clock.now l ≡ (t, l)

-- the target after the reset, the key and the reset
abbrev pub entered : Core → Core
entered e =
    apply_stcs 0x08 0 (apply_stcs 0x08 0x59 (accept_key updi_key_nvm (apply_stcs 0x08 0x59 e)))

entered-status : (e : Core) → (entered e).cs 0x0B ≡ opened (e.cs 0x0B)
unfolding apply_stcs accept_key
entered-status e = elim (Bool-cases e.erase_key) [
  | inl on ↦ rw on (omega arith)
  | inr off ↦ rw off refl
]

pub entered-opens :
    (e : Core)
    → e.cs 0x0B < 256
    → (is_programming (entered e) ≡ true) × (is_locked (entered e) ≡ false)
entered-opens e h =
    let ok : status_test (e.cs 0x0B) ≡ true =
      passes_sound status_test 256 (e.cs 0x0B) h status_table in
    rw (entered-status e) (ground arith)

module _ (preset : Preset) (baud : ℕ) (exceptions : Exceptions) (clock : Clock Line) (t : ℕ)
    (still : Still clock t) where
  read_cs_lem :
      (narrow : Bool) → (access preset baud exceptions narrow).read_cs ≡ ldcs (phy preset baud)
  read_cs_lem true = refl
  read_cs_lem false = refl

  write_cs_lem :
      (narrow : Bool) → (access preset baud exceptions narrow).write_cs ≡ stcs (phy preset baud)
  write_cs_lem true = refl
  write_cs_lem false = refl

  write_key_lem :
      (narrow : Bool) → (access preset baud exceptions narrow).write_key ≡ key (phy preset baud)
  write_key_lem true = refl
  write_key_lem false = refl

  in_prog_mode_lem :
      (narrow : Bool) (e : Core)
      → Mode.in_prog_mode (access preset baud exceptions narrow) (quiet e)
        ≡ (ok (is_programming e), quiet e)
  unfolding Mode.in_prog_mode
  in_prog_mode_lem narrow e = rw (read_cs_lem narrow, sys_status_lem preset baud e)

  reset_lem :
      (narrow b : Bool) (e : Core)
      → Mode.reset (access preset baud exceptions narrow) b (quiet e)
        ≡ (ok tt, quiet (apply_stcs 0x08 (if b then 0x59 else 0) e))
  unfolding Mode.reset
  reset_lem narrow true e = rw (write_cs_lem narrow, stcs_reset_lem preset baud 0x59 e)
  reset_lem narrow false e = rw (write_cs_lem narrow, stcs_reset_lem preset baud 0 e)

  toggle_reset_lem :
      (narrow : Bool) (e : Core)
      → Mode.toggle_reset (access preset baud exceptions narrow) (quiet e)
        ≡ (ok tt, quiet (apply_stcs 0x08 0 (apply_stcs 0x08 0x59 e)))
  unfolding Mode.toggle_reset
  toggle_reset_lem narrow e =
      rw (reset_lem narrow true e, reset_lem narrow false (apply_stcs 0x08 0x59 e))

  insert_key_lem :
      (narrow : Bool) (e : Core)
      → e.cs 0x07 < 256
      → Mode.insert_key (access preset baud exceptions narrow) updi_key_nvm 4 (quiet e)
        ≡ (ok tt, quiet (accept_key updi_key_nvm e))
  unfolding Mode.insert_key raise_if accept_key
  insert_key_lem narrow e h =
      let up : has_flags (bit_or (e.cs 0x07) 16) 16 ≡ true =
        passes_sound (λ s. has_flags (bit_or s 16) 16) 256 (e.cs 0x07) h key_table in
      rw (
        write_key_lem narrow,
        nvm_key_lem preset baud e,
        read_cs_lem narrow,
        key_status_lem preset baud (accept_key updi_key_nvm e),
        up,
      )

  wait_unlocked_lem :
      (narrow : Bool) (fuel : ℕ) (e : Core)
      → is_locked e ≡ false
      → Mode.wait_unlocked (access preset baud exceptions narrow) clock (suc fuel) 100 (quiet e)
        ≡ (ok true, quiet e)
  unfolding Mode.wait_unlocked poll_until poll_loop start_timeout expired
  wait_unlocked_lem narrow fuel e h =
      let early : ltb (t + 100) t ≡ false = ground arith in
      rw (
        still.reads (quiet e),
        still.reads (quiet e),
        early,
        read_cs_lem narrow,
        sys_status_lem preset baud e,
        h,
      )

  -- With a clock that stands still, `enter_progmode` over either data link, on a quiet target whose
  -- two status registers hold bytes, returns true; the target is quiet then, in programming mode,
  -- and with its memory as it was. One round of polling is enough.
  pub enter_progmode-enters :
      (narrow : Bool) (fuel : ℕ) (e : Core)
      → e.cs 0x0B < 256
      → e.cs 0x07 < 256
      → (e' : Core) × (Mode.enter_progmode
            (access preset baud exceptions narrow)
            clock
            (suc fuel)
            (quiet e)
          ≡ (ok true, quiet e'))
        × (is_programming e' ≡ true)
        × (e'.memory ≡ e.memory)
  unfolding Mode.enter_progmode raise_if apply_stcs accept_key
  enter_progmode-enters narrow fuel e h k = elim (Bool-cases (is_programming e)) [
    | inl already ↦ (e, rw (in_prog_mode_lem narrow e, already), already, refl)
    | inr not_yet ↦
        let e1 = apply_stcs 0x08 0x59 e in
        let (programming, unlocked) = entered-opens e h in
        (
          entered e,
          rw (
            in_prog_mode_lem narrow e,
            not_yet,
            reset_lem narrow true e,
            insert_key_lem narrow e1 k,
            toggle_reset_lem narrow (accept_key updi_key_nvm e1),
            wait_unlocked_lem narrow fuel (entered e) unlocked,
            in_prog_mode_lem narrow (entered e),
            programming,
          ),
          programming,
          refl,
        )
  ]
