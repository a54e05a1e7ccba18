-- ===== src/Nvm/Guard.antt =====
-- The discipline of the NVM controller: no command is given before a status read says that the
-- controller is idle and without an error, and each command wants such a read of its own.
pub mod Rules
pub mod Access
pub mod Word
pub mod Paged
pub mod P0
pub mod Drivers
use updi_programmer.Prelude.{
  ℕ, ◌≡◌, Bool, true, false, not, ◌&&◌, List, [], ◌∷◌, ◌==◌, if◌then◌else◌,
}
use updi_programmer.Nvm.Log.{Event, byte_read, byte_written, data_written, words_written, Logged}

-- What the discipline depends on: the two registers, the status bytes that mean idle, and the
-- command that only clears the register.
pub record Rule : Type 0 where
  pub status_address : ℕ
  pub ctrla_address : ℕ
  pub idle : ℕ → Bool
  pub is_clear : ℕ → Bool

module _ (rule : Rule) where
  -- the last status byte was idle, and no command came after it
  abbrev pub ready : List Event → Bool
  ready [] = false
  ready (byte_read a v ∷ es) = if a == rule.status_address then rule.idle v else ready es
  ready (byte_written a v ∷ es) = if a == rule.ctrla_address then false else ready es
  ready (data_written _ _ ∷ es) = ready es
  ready (words_written _ _ ∷ es) = ready es

  -- every command but a clearing one came when the controller was ready
  abbrev pub Guarded : List Event → Type 0
  Guarded [] = Unit
  Guarded (byte_written a v ∷ es) =
      (a ≡ rule.ctrla_address → rule.is_clear v ≡ false → ready es ≡ true) × Guarded es
  Guarded (byte_read _ _ ∷ es) = Guarded es
  Guarded (data_written _ _ ∷ es) = Guarded es
  Guarded (words_written _ _ ∷ es) = Guarded es

  abbrev pub Good : {S : Type 0} → Logged S → Type 0
  Good s = Guarded s.events

  -- and the next command may be given
  abbrev pub Ready : {S : Type 0} → Logged S → Type 0
  Ready s = Guarded s.events × (ready s.events ≡ true)
