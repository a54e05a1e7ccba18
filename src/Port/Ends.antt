-- ===== src/Port/Ends.antt =====
-- What it is for a call of the C port to end, and how calls that are composed do.
pub mod Link
pub mod Nvm
pub mod Session
use updi_programmer.Prelude.{◌≡◌, ◌≢◌, Bool, true, false, if◌then◌else◌}
use updi_programmer.Port.Call.{
  Call, Outcome, done, failed, Status, give, fail, fail_if, resume, ◌>>=◌,
}

-- From every state, the call ends with its outputs or a failure, but never for want of fuel.
pub record Ends {S A : Type 0} (m : Call S A) : Type 0 where
  pub ends : (s : S) → (m s).0 ≢ failed Status.out_of_fuel

module _ {S A : Type 0} where
  pub give-Ends : (a : A) → Ends {S = S} (give a)
  unfolding give
  give-Ends a = record { ends = λ s h. cc }

  pub fail-Ends : (e : Status) → e ≢ Status.out_of_fuel → Ends {S = S} {A = A} (fail e)
  unfolding fail
  fail-Ends e ne = record { ends = λ s h. ne cc }

  pub if-Ends : (b : Bool) {m n : Call S A} → Ends m → Ends n → Ends (if b then m else n)
  if-Ends true p q = p
  if-Ends false p q = q

  pub branch-Ends :
      (b : Bool) {m n : Call S A}
      → Ends m
      → Ends n
      → Ends (elim b as (λ _. Call S A) [ true ↦ m | false ↦ n ])
  branch-Ends true p q = p
  branch-Ends false p q = q

module _ {S : Type 0} where
  pub fail_if-Ends : (b : Bool) (e : Status) → e ≢ Status.out_of_fuel → Ends {S = S} (fail_if b e)
  unfolding fail_if
  fail_if-Ends true e ne = fail-Ends e ne
  fail_if-Ends false e ne = give-Ends tt

module _ {S A B : Type 0} where
  resume-Ends :
      (r : Outcome A) (k : A → Call S B) (s : S)
      → r ≢ failed Status.out_of_fuel
      → ((a : A) → Ends (k a))
      → (resume r k s).0 ≢ failed Status.out_of_fuel
  unfolding resume
  resume-Ends (done a) k s ne next = (next a).ends s
  resume-Ends (failed e) k s ne next = λ h. ne cc

  pub bind-Ends :
      {m : Call S A} {k : A → Call S B} → Ends m → ((a : A) → Ends (k a)) → Ends (m >>= k)
  unfolding ◌>>=◌
  bind-Ends {m} {k} p next = record { ends = λ s. resume-Ends (m s).0 k (m s).1 (p.ends s) next }
