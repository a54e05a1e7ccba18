-- ===== src/Tests/Data.antt =====
-- A target, a small world and the parameters that the runs share.
use updi_programmer.Prelude.{ℕ, ◌+◌, Bool, true, false, List, [], ◌∷◌}
use updi_programmer.Exec.{Error, ok, updi_error, locked_error, serial_error}
use updi_programmer.Serial.{Clock}
use updi_programmer.Link.{Datalink, datalink16, datalink24}
use updi_programmer.Link.Base.{Exceptions}
use updi_programmer.ReadWrite.{ReadWrite}
use updi_programmer.Nvm.Controller.{Bus}
use updi_programmer.Nvm.Log.{Logged}
use updi_programmer.Target.Memory.{Preset, Memory}
use updi_programmer.Target.Device.{Core}
use updi_programmer.Target.Line.{Line}
use updi_programmer.Target.Line.Direct.{phy}

-- the addresses of `updi_emu_config_p3`, with a short SIB
abbrev pub preset_p3 : Preset
preset_p3 = record {
  flash_base = 0x800000;
  nvmctrl_base = 0x1000;
  status_offset = 0x06;
  ctrla_offset = 0x00;
  fuse_data_offset = 0x08;
  fuse_addr_offset = 0x0C;
  cmd_write_fuse = 0xFF;
  cmd_chip_erase = 0x20;
  sib = b'A' ∷ b'V' ∷ b'R' ∷ [];
}

-- the addresses of `updi_emu_config_p0`, with a short SIB
abbrev pub preset_p0 : Preset
preset_p0 = record {
  flash_base = 0x8000;
  nvmctrl_base = 0x1000;
  status_offset = 0x02;
  ctrla_offset = 0x00;
  fuse_data_offset = 0x06;
  fuse_addr_offset = 0x08;
  cmd_write_fuse = 0x07;
  cmd_chip_erase = 0x05;
  sib = b't' ∷ b'i' ∷ b'n' ∷ b'y' ∷ [];
}

abbrev pub erased : Memory
erased = record { flash = λ _. 0xFF; io = λ _. 0 }

-- a target with its flash erased
abbrev pub fresh : Core
fresh = record {
  memory = erased;
  cs = λ _. 0;
  ptr = 0;
  repeat_next = 0;
  nvm_key = false;
  erase_key = false;
}

abbrev pub is_updi : Error → Bool
is_updi updi_error = true
is_updi locked_error = true
is_updi _ = false

abbrev pub is_serial : Error → Bool
is_serial serial_error = true
is_serial _ = false

abbrev pub exceptions : Exceptions
exceptions = record { is_updi_error = is_updi; is_io_error = is_serial }

abbrev pub wide : Datalink Line
wide = datalink24 exceptions (phy preset_p3 230400)

abbrev pub narrow : Datalink Line
narrow = datalink16 exceptions (phy preset_p0 230400)

-- a clock that is its own state
abbrev pub counter : Clock ℕ
counter = record { now = λ s. (s, s + 1) }

-- a memory that takes every access and reads as 0
abbrev pub zeros : ReadWrite ℕ
zeros = record {
  read_cs = λ _ s. (ok 0, s);
  write_cs = λ _ _ s. (ok tt, s);
  write_key = λ _ _ s. (ok tt, s);
  read_sib = λ s. (ok [], s);
  read_byte = λ _ s. (ok 0, s);
  write_byte = λ _ _ s. (ok tt, s);
  read_data = λ _ _ s. (ok [], s);
  read_data_words = λ _ _ s. (ok [], s);
  write_data_words = λ _ _ s. (ok tt, s);
  write_data = λ _ _ s. (ok tt, s);
}

abbrev pub idle_bus : Bus ℕ
idle_bus = record { readwrite = zeros; clock = counter; fuel = 200; nvmctrl_address = 0x1000 }

abbrev pub unlogged_yet : Logged ℕ
unlogged_yet = record { world = 0; events = [] }

abbrev pub greeting : List ℕ
greeting = b'h' ∷ b'e' ∷ b'l' ∷ b'l' ∷ b'o' ∷ []
