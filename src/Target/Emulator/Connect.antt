-- ===== src/Target/Emulator/Connect.antt =====
-- The way into the programming mode of updi/updi_link.c and updi/updi_nvm.c, run on the emulator.
use updi_programmer.Prelude.{
  ℕ, zero, suc, ◌+◌, ◌%◌, ◌^◌, ◌<◌, ◌≡◌, ◌≢◌, refl, ap, Bool, true, false, List, [], ◌∷◌, arith,
  bit_or, ltb, ◌==◌, Bool-cases, inl, inr,
}
use updi_programmer.Prelude.Bytes.{passes_sound}
use updi_programmer.Prelude.Lists.{length, take_of_length_le, drop_of_length_le}
use updi_programmer.Constants.{updi_key_nvm}
use updi_programmer.Nvm.Controller.{has_flags}
use updi_programmer.Port.Call.{done, fail_if, regardless, outcome_of, ◌>>=◌}
use updi_programmer.Port.Link.{
  ldcs, stcs, activate, init_session_params, enable_ack, set_ack, check_datalink, is_alive, millis,
}
use updi_programmer.Port.Link.Block.{read_sib}
use updi_programmer.Port.Nvm.{
  SibInfo, family_of, version_of, flag_of, seen_unlocked, sys_flag, in_progmode, nvm_reset,
  unlocked_loop, wait_unlocked, insert_key, toggle_reset, enter_progmode, read_sib_info,
}
use updi_programmer.Target.Memory.{Preset, update}
use updi_programmer.Target.Device.{Core, sib_bytes, apply_stcs, accept_key}
use updi_programmer.Target.Line.Block.{rx_push-append}
use updi_programmer.Target.Programming.{
  is_programming, is_locked, entered, entered-opens, key_table,
}
use updi_programmer.Target.Emulator.{emu_transport, feed_all, at_rest}
use updi_programmer.Target.Emulator.Direct.{
  sys_status_lem, key_status_lem, stcs_reset_lem, nvm_key_lem,
}

length-sib_bytes : (preset : Preset) (n : ℕ) (sib : List ℕ) → length (sib_bytes preset n sib) ≡ n
unfolding sib_bytes
length-sib_bytes preset zero sib = refl
length-sib_bytes preset (suc n) [] = ap suc (length-sib_bytes preset n [])
length-sib_bytes preset (suc n) (c ∷ cs) = ap suc (length-sib_bytes preset n cs)

-- what the emulator's SIB says
abbrev pub info : Preset → SibInfo
info preset =
    let sib = sib_bytes preset 16 preset.sib in
    record { family = family_of 7 sib; nvm_version = version_of sib }

module _ (preset : Preset) (wait : ℕ) (wide : Bool) (now : ℕ) where
  -- the session parameters are set
  abbrev pub prepared : Core → Core
  prepared e = record e { cs = update (update e.cs 3 8) 2 0x80 }

  pub activate_lem :
      (ack : Bool) (e : Core)
      → e.cs 0 ≢ 0
      → activate (emu_transport preset) (at_rest wide wait ack e now)
        ≡ (done tt, at_rest wide wait true (prepared e) now)
  unfolding activate init_session_params enable_ack set_ack stcs check_datalink is_alive ldcs
      feed_all apply_stcs regardless
  activate_lem ack e h = let alive : (e.cs 0 == 0) ≡ false = ground arith in rw alive

  pub read_sib_info_lem :
      (ack : Bool) (e : Core)
      → read_sib_info (emu_transport preset) (at_rest wide wait ack e now)
        ≡ (done (info preset), at_rest wide wait ack e now)
  unfolding read_sib_info read_sib feed_all fail_if
  read_sib_info_lem ack e =
      let xs = sib_bytes preset 16 preset.sib in
      let full : length xs ≡ 16 = length-sib_bytes preset 16 preset.sib in
      let some_bytes : (length xs == 0) ≡ false = ground arith in
      let long : ltb (length xs) 11 ≡ false = ground arith in
      rw (
        rx_push-append [] xs (omega arith),
        take_of_length_le 16 xs (omega arith),
        drop_of_length_le 16 xs (omega arith),
        some_bytes,
        long,
      )

  in_progmode_lem :
      (ack : Bool) (e : Core)
      → in_progmode (emu_transport preset) (at_rest wide wait ack e now)
        ≡ (done (is_programming e), at_rest wide wait ack e now)
  unfolding in_progmode sys_flag flag_of
  in_progmode_lem ack e = rw (sys_status_lem preset wait ack now wide e)

  insert_key_lem :
      (ack : Bool) (e : Core)
      → e.cs 0x07 < 256
      → insert_key (emu_transport preset) updi_key_nvm 4 (at_rest wide wait ack e now)
        ≡ (done tt, at_rest wide wait ack (accept_key updi_key_nvm e) now)
  unfolding insert_key fail_if accept_key
  insert_key_lem ack e h =
      let up : has_flags (bit_or (e.cs 0x07) 16) 16 ≡ true =
        passes_sound (λ s. has_flags (bit_or s 16) 16) 256 (e.cs 0x07) h key_table in
      rw (
        nvm_key_lem preset wait ack now wide e,
        key_status_lem preset wait ack now wide (accept_key updi_key_nvm e),
        up,
      )

  unlocked_loop_lem :
      (ack : Bool) (n start timeout : ℕ) (e : Core)
      → is_locked e ≡ false
      → unlocked_loop (emu_transport preset) (suc n) start timeout (at_rest wide wait ack e now)
        ≡ (done true, at_rest wide wait ack e now)
  unfolding unlocked_loop outcome_of seen_unlocked
  unlocked_loop_lem ack n start timeout e h = rw (sys_status_lem preset wait ack now wide e, h)

module _ (preset : Preset) (wait : ℕ) (wide : Bool) where
  wait_unlocked_lem :
      (ack : Bool) (now timeout : ℕ) (e : Core)
      → is_locked e ≡ false
      → wait_unlocked (emu_transport preset) timeout (at_rest wide wait ack e now)
        ≡ (done true, at_rest wide wait ack e ((now + 1) % 2 ^ 32))
  unfolding wait_unlocked ◌>>=◌ millis
  wait_unlocked_lem ack now timeout e h =
      unlocked_loop_lem preset wait wide ((now + 1) % 2 ^ 32) ack 199999 ((now + 1) % 2 ^ 32)
        timeout e h

  -- the target ends in the programming mode, with its memory left alone
  pub enter_progmode_lem :
      (ack : Bool) (now : ℕ) (e : Core)
      → e.cs 0x0B < 256
      → e.cs 0x07 < 256
      → (e' : Core) × (now' : ℕ) × (enter_progmode
            (emu_transport preset)
            (at_rest wide wait ack e now)
          ≡ (done tt, at_rest wide wait ack e' now'))
        × (is_programming e' ≡ true)
        × (e'.memory ≡ e.memory)
        × (e'.repeat_next ≡ e.repeat_next)
  unfolding enter_progmode nvm_reset toggle_reset regardless fail_if
  enter_progmode_lem ack now e small keys = elim (Bool-cases (is_programming e)) [
    | inl already ↦
        (e, now, rw (in_progmode_lem preset wait wide now ack e, already), already, refl, refl)
    | inr not_yet ↦
        (let opens = entered-opens e small in
          let e1 = apply_stcs 0x08 0x59 e in
          let n = (now + 1) % 2 ^ 32 in
          (
            entered e,
            n,
            rw (
              in_progmode_lem preset wait wide now ack e,
              not_yet,
              stcs_reset_lem preset wait ack now wide 0x59 e,
              insert_key_lem preset wait wide now ack e1 (unfold apply_stcs in keys),
              stcs_reset_lem preset wait ack now wide 0x59 (accept_key updi_key_nvm e1),
              stcs_reset_lem preset wait ack now wide 0
                  (apply_stcs 0x08 0x59 (accept_key updi_key_nvm e1)),
              wait_unlocked_lem ack now 100 (entered e) opens.1,
              in_progmode_lem preset wait wide n ack (entered e),
              opens.0,
            ),
            opens.0,
            unfold apply_stcs accept_key in refl,
            unfold apply_stcs accept_key in refl,
          ))
  ]
