-- ===== src/Target/Line.antt =====
-- The one-wire line between the Python stack and the target: each byte that is sent comes back as
-- its echo, ahead of what the target answers. It is an instance of the serial port.
pub mod Direct
pub mod Block
pub mod Words
pub mod Control
use updi_programmer.Prelude.{ℕ, List, [], ◌∷◌, ◌++◌, ltb, if◌then◌else◌}
use updi_programmer.Prelude.Lists.{length, take, drop}
use updi_programmer.Exec.{ok}
use updi_programmer.Serial.{Serial}
use updi_programmer.Target.Memory.{Preset}
use updi_programmer.Target.Device.{Core, Phase, feed_byte}

-- the target, and the bytes on their way to the programmer
pub record Line : Type 0 where
  pub core : Core
  pub phase : Phase
  pub rx : List ℕ

abbrev pub line : Core → Phase → List ℕ → Line
line core phase rx = record { core = core; phase = phase; rx = rx }

-- a target between two instructions, with nothing left to read
abbrev pub quiet : Core → Line
quiet core = line core Phase.idle []

-- `rx_push`: a full queue drops the byte
unfoldable pub rx_push : List ℕ → List ℕ → List ℕ
rx_push rx [] = rx
rx_push rx (b ∷ bs) = rx_push (if ltb (length rx) 2047 then rx ++ b ∷ [] else rx) bs

module _ (preset : Preset) where
  unfoldable pub emu_send : List ℕ → Line → Line
  unfolding feed_byte rx_push
  emu_send [] l = l
  emu_send (b ∷ bs) l =
      let r = feed_byte preset l.core l.phase b in
      emu_send bs (line r.core r.phase (rx_push (l.rx ++ b ∷ []) r.pushed))

  -- A port on the line never fails to open. `readline` takes what is there: the target sends no
  -- newline.
  abbrev pub line_serial : Serial Line
  line_serial = record {
    open_port = λ _ l. (ok tt, l);
    close_port = λ l. l;
    write = emu_send;
    read = λ n l. (take n l.rx, record l { rx = drop n l.rx });
    readline = λ l. (l.rx, record l { rx = [] });
    sleep = λ _ l. l;
  }
