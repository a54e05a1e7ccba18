-- ===== src/Port/Call.antt =====
-- A C function that returns an `UpdiStatus` (updi/updi_link.h): it changes the state, and ends with
-- its outputs or with a status that is not `UpdiOk`.
use updi_programmer.Prelude.{Bool, true, false}

-- the statuses but `UpdiOk`; `out_of_fuel` is none of them, and marks a loop that was cut short
pub data Status : Type 0 where
  timeout nack protocol param verify nvm locked unsupported transport : Status
  out_of_fuel : Status
  -- the code would follow a NULL device
  null_device : Status

pub data Outcome (A : Type 0) : Type 0 where
  done : A → Outcome A
  failed : Status → Outcome A

abbrev pub Call : Type 0 → Type 0 → Type 0
Call S A = S → Outcome A × S

module _ {S A : Type 0} where
  unfoldable pub give : A → Call S A
  give a s = (done a, s)

  unfoldable pub fail : Status → Call S A
  fail e s = (failed e, s)

module _ {S A B : Type 0} where
  unfoldable pub resume : Outcome A → (A → Call S B) → Call S B
  resume (done a) k s = k a s
  resume (failed e) k s = (failed e, s)

  infixl 5 ◌>>=◌ ◌>>◌
  -- `if(s != UpdiOk) return s;` between two calls; opening this opens `give` and `fail` too
  unfoldable pub ◌>>=◌ : Call S A → (A → Call S B) → Call S B
  unfolding give fail resume
  ◌>>=◌ m k s = let r = m s in resume r.0 k r.1

  abbrev pub ◌>>◌ : Call S A → Call S B → Call S B
  m >> n = m >>= λ _. n

module _ {S : Type 0} where
  -- `if(b) return e;`
  unfoldable pub fail_if : Bool → Status → Call S Unit
  unfolding give fail
  fail_if b e = elim b [ true ↦ fail e | false ↦ give tt ]

module _ {S A : Type 0} where
  -- the status of the call is kept, and what comes next is done all the same
  unfoldable pub outcome_of : Call S A → Call S (Outcome A)
  outcome_of m s = let r = m s in (done r.0, r.1)

  unfoldable pub settle : Outcome A → Call S A
  settle r s = (r, s)

module _ {S A B : Type 0} where
  -- the status of the first call is not looked at
  unfoldable pub regardless : Call S A → Call S B → Call S B
  regardless m n s = n (m s).1
