-- ===== src/Port/Transport.antt =====
-- `UpdiTransport` of updi/updi_transport.h, the interface below the port, over any state `S`.
use updi_programmer.Prelude.{ℕ, Bool, Option, List}

-- `send` says whether all bytes went out; `recv len timeout_ms` gives at most `len` bytes. The last
-- two may be absent.
pub record Transport (S : Type 0) : Type 0 where
  pub send : List ℕ → S → Bool × S
  pub recv : ℕ → ℕ → S → List ℕ × S
  pub double_break : Option (S → S)
  pub millis : Option (S → ℕ × S)
