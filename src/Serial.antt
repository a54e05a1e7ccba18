-- ===== src/Serial.antt =====
-- What reference/pymcuprog/serialupdi takes from outside the repository: pyserial's port and the
-- clock of `time`. Both are parameters of the model, over any state `S` of the world.
use updi_programmer.Prelude.{ℕ, List, Bool}
use updi_programmer.Exec.{Exec}

-- the arguments of `serial.Serial` that the program varies
pub record Settings : Type 0 where
  pub baud : ℕ
  pub two_stop_bits : Bool

-- `time.time()` in milliseconds; it cannot raise.
pub record Clock (S : Type 0) : Type 0 where
  pub now : S → ℕ × S

-- `open_port` is `serial.Serial(...)`, which may raise; `read n` returns at most `n` bytes, fewer
-- on a timeout.
pub record Serial (S : Type 0) : Type 0 where
  pub open_port : Settings → Exec S Unit
  pub close_port : S → S
  pub write : List ℕ → S → S
  pub read : ℕ → S → List ℕ × S
  pub readline : S → List ℕ × S
  pub sleep : ℕ → S → S
