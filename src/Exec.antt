-- ===== src/Exec.antt =====
-- Python calls that change the world and may raise. What was done before a raise stays done, so
-- the state comes back beside the error.
pub mod Triple
use updi_programmer.Prelude.{ℕ, Bool, true, false}

-- The exceptions of the stack: pymcuprog's own (with the code of an NVM error), Python's, and
-- pyserial's. `out_of_fuel` is no exception: it marks a loop that the model cut short.
pub data Error : Type 0 where
  updi_error protocol_error locked_error nvm_timeout : Error
  nvm_error : ℕ → Error
  session_error device_locked_error : Error
  index_error zero_division not_implemented recursion_error serial_error : Error
  out_of_fuel : Error

pub data Result (A : Type 0) : Type 0 where
  ok : A → Result A
  err : Error → Result A

abbrev pub Exec : Type 0 → Type 0 → Type 0
Exec S A = S → Result A × S

module _ {S A : Type 0} where
  unfoldable pub pure : A → Exec S A
  pure a s = (ok a, s)

  -- `raise`
  unfoldable pub raise : Error → Exec S A
  raise e s = (err e, s)

  -- a read or a write of the state that cannot raise
  unfoldable pub lift : (S → A × S) → Exec S A
  lift f s = let (a, s') = f s in (ok a, s')

module _ {S A B : Type 0} where
  unfoldable pub continue : Result A → (A → Exec S B) → Exec S B
  continue (ok a) k s = k a s
  continue (err e) k s = (err e, s)

  infixl 5 ◌>>=◌ ◌>>◌
  -- opening this opens `pure`, `raise` and `lift` too
  unfoldable pub ◌>>=◌ : Exec S A → (A → Exec S B) → Exec S B
  unfolding pure raise lift continue
  ◌>>=◌ m k s = let (r, s') = m s in continue r k s'

  abbrev pub ◌>>◌ : Exec S A → Exec S B → Exec S B
  m >> n = m >>= λ _. n

module _ {S : Type 0} where
  unfoldable pub modify : (S → S) → Exec S Unit
  modify f s = (ok tt, f s)

  -- `if b: raise e`
  unfoldable pub raise_if : Bool → Error → Exec S Unit
  unfolding pure raise
  raise_if b e = elim b [ true ↦ raise e | false ↦ pure tt ]

module _ {S A : Type 0} where
  -- `try: m` with `except E: h`, where `caught` says which errors E covers
  handle : (Error → Bool) → (Error → Exec S A) → Result A → Exec S A
  handle caught h (ok a) s = (ok a, s)
  handle caught h (err e) s = elim (caught e) [ true ↦ h e s | false ↦ (err e, s) ]

  unfoldable pub try_except : (Error → Bool) → Exec S A → (Error → Exec S A) → Exec S A
  unfolding handle
  try_except caught m h s = let (r, s') = m s in handle caught h r s'
