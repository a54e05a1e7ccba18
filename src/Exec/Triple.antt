-- ===== src/Exec/Triple.antt =====
-- Hoare triples over `Exec`, with a postcondition for each way to end, and a rule for each way
-- to build a call; and the loop over a list to which the loops of the program are compared.
use updi_programmer.Prelude.{Bool, true, false, ◌≡◌, refl, List, [], ◌∷◌, if◌then◌else◌}
use updi_programmer.Exec.{Exec, Error, Result, ok, err, pure, continue, ◌>>=◌, ◌>>◌}

-- a call on each element, in order
module _ {S A : Type 0} where
  unfoldable pub for_each : (A → Exec S Unit) → List A → Exec S Unit
  unfolding ◌>>=◌
  for_each call [] = pure tt
  for_each call (x ∷ xs) = do call x; for_each call xs

abbrev pub Post : {S A : Type 0} → (A → S → Type 0) → (Error → S → Type 0) → Result A × S → Type 0
Post Q E (ok a, s) = Q a s
Post Q E (err e, s) = E e s

-- From a state in `P`, the call returns with `Q` or raises with `E`.
pub record Triple {S A : Type 0} (P : S → Type 0) (m : Exec S A) (Q : A → S → Type 0)
    (E : Error → S → Type 0) : Type 0 where
  pub run : (s : S) → P s → Post Q E (m s)

module _ {S A B : Type 0} {R : B → S → Type 0} {E : Error → S → Type 0} where
  continue-Post :
      {Q : A → S → Type 0} (k : A → Exec S B)
      → ((a : A) → Triple (Q a) (k a) R E)
      → (r : Result A) (s : S) → Post Q E (r, s)
      → Post R E (continue r k s)
  unfolding continue
  continue-Post k next (ok a) s h = (next a).run s h
  continue-Post k next (err e) s h = h

module _ {S A B : Type 0} {P : S → Type 0} {R : B → S → Type 0} {E : Error → S → Type 0} where
  -- the rule for one call after another
  pub Triple-bind :
      {Q : A → S → Type 0} (m : Exec S A) (k : A → Exec S B)
      → Triple P m Q E
      → ((a : A) → Triple (Q a) (k a) R E)
      → Triple P (m >>= k) R E
  unfolding ◌>>=◌
  Triple-bind m k first next = record {
    run = λ s h. let (r, s') = m s in continue-Post k next r s' (first.run s h);
  }

module _ {S A : Type 0} {Q : A → S → Type 0} {E : Error → S → Type 0} where
  weaken_Post :
      {Q' : A → S → Type 0} {E' : Error → S → Type 0}
      → ((a : A) (s : S) → Q' a s → Q a s)
      → ((e : Error) (s : S) → E' e s → E e s)
      → (r : Result A) (s : S) → Post Q' E' (r, s)
      → Post Q E (r, s)
  weaken_Post q f (ok a) s h = q a s h
  weaken_Post q f (err e) s h = f e s h

module _ {S A : Type 0} {P : S → Type 0} {Q : A → S → Type 0} {E : Error → S → Type 0} where
  pub Triple-if :
      (b : Bool) (m n : Exec S A)
      → (b ≡ true → Triple P m Q E)
      → (b ≡ false → Triple P n Q E)
      → Triple P (if b then m else n) Q E
  Triple-if true m n hm hn = hm refl
  Triple-if false m n hm hn = hn refl

  -- a weaker claim
  pub Triple-weaken :
      {P' : S → Type 0} {Q' : A → S → Type 0} {E' : Error → S → Type 0} (m : Exec S A)
      → Triple P' m Q' E'
      → ((s : S) → P s → P' s)
      → ((a : A) (s : S) → Q' a s → Q a s)
      → ((e : Error) (s : S) → E' e s → E e s)
      → Triple P m Q E
  Triple-weaken m t p q f = record {
    run = λ s h. let (r, s') = m s in weaken_Post q f r s' (t.run s (p s h));
  }
