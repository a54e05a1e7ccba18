-- ===== src/Port/Session/Consistent.antt =====
-- The consistency of a session of updi/updi_session.c, and what keeps it.
use updi_programmer.Prelude.{◌≡◌, refl, Bool, true, false, Option, none, some, if◌then◌else◌}
use updi_programmer.Devices.Table.{Row}
use updi_programmer.Port.Call.{
  Call, Outcome, Status, done, failed, resume, give, fail, fail_if, ◌>>=◌,
}
use updi_programmer.Port.Link.{UpdiLink}
use updi_programmer.Port.Session.{
  UpdiSession, Mismatch, on_link, with_device, on_nvm, modify, connected_device, unless_found,
  adopt,
}

module _ {S : Type 0} where
  -- a session that says that it is connected has a device, and it is the one of its NVM functions
  abbrev pub Consistent : UpdiSession S → Type 0
  Consistent s = s.connected ≡ true → (d : Row) × (s.device ≡ some d) × (s.nvm_device ≡ some d)

  abbrev pub Unconnected : UpdiSession S → Type 0
  Unconnected s = s.connected ≡ false

  abbrev pub Keeps : {A : Type 0} → Call (UpdiSession S) A → Type 0
  Keeps m = (s : UpdiSession S) → Consistent s → Consistent (m s).1

  pub Unconnected-Consistent : (s : UpdiSession S) → Unconnected s → Consistent s
  Unconnected-Consistent s u c = cc

module _ {S A B : Type 0} (P Q : UpdiSession S → Type 0)
    (weaker : (s : UpdiSession S) → P s → Q s) where
  resume_lem :
      (r : Outcome A) (k : A → Call (UpdiSession S) B) (s : UpdiSession S)
      → ((a : A) (t : UpdiSession S) → P t → Q (k a t).1)
      → P s
      → Q (resume r k s).1
  unfolding resume
  resume_lem (done a) k s next p = next a s p
  resume_lem (failed e) k s next p = weaker s p

  -- two calls, whatever the first one ends with
  pub bind_lem :
      (m : Call (UpdiSession S) A) (k : A → Call (UpdiSession S) B)
      → ((s : UpdiSession S) → P s → P (m s).1)
      → ((a : A) (t : UpdiSession S) → P t → Q (k a t).1)
      → (s : UpdiSession S) → P s
      → Q ((m >>= k) s).1
  unfolding ◌>>=◌
  bind_lem m k first next s p = resume_lem (m s).0 k (m s).1 next (first s p)

module _ {S A B : Type 0} where
  pub bind-Keeps :
      (m : Call (UpdiSession S) A) (k : A → Call (UpdiSession S) B)
      → Keeps m
      → ((a : A) → Keeps (k a))
      → Keeps (m >>= k)
  bind-Keeps m k first next = bind_lem Consistent Consistent (λ s c. c) m k first next

module _ {S A : Type 0} where
  pub on_link-Keeps : (m : Call (UpdiLink S) A) → Keeps (on_link m)
  unfolding on_link
  on_link-Keeps m s c = c

  with_device-Keeps : (m : Row → Call (UpdiLink S) A) (o : Option Row) → Keeps (with_device m o)
  unfolding with_device fail
  with_device-Keeps m none s c = c
  with_device-Keeps m (some d) s c = on_link-Keeps (m d) s c

  pub on_nvm-Keeps : (m : Row → Call (UpdiLink S) A) → Keeps (on_nvm m)
  unfolding on_nvm
  on_nvm-Keeps m s c = with_device-Keeps m s.nvm_device s c

  pub on_link-Unconnected :
      (m : Call (UpdiLink S) A) (s : UpdiSession S) → Unconnected s → Unconnected (on_link m s).1
  unfolding on_link
  on_link-Unconnected m s u = u

  pub if-Keeps :
      (b : Bool) (m n : Call (UpdiSession S) A) → Keeps m → Keeps n → Keeps (if b then m else n)
  if-Keeps true m n p q = p
  if-Keeps false m n p q = q

module _ {S : Type 0} where
  pub connected_device-Keeps : Keeps (connected_device {S = S})
  unfolding connected_device
  connected_device-Keeps s c = c

  pub fail_if-Keeps : (b : Bool) (e : Status) → Keeps (fail_if {S = UpdiSession S} b e)
  unfolding fail_if fail give
  fail_if-Keeps true e s c = c
  fail_if-Keeps false e s c = c

  pub unless_found-Keeps :
      (m : Option Mismatch) (next : Call (UpdiSession S) (Option Mismatch))
      → Keeps next
      → Keeps (unless_found m next)
  unfolding unless_found
  unless_found-Keeps (some m) next k s c = c
  unless_found-Keeps none next k s c = k s c

  pub adopt_lem : (o : Option Row) (s : UpdiSession S) → Unconnected s → Consistent (adopt o s).1
  unfolding adopt modify
  adopt_lem none s u = Unconnected-Consistent s u
  adopt_lem (some d) s u = λ c. (d, refl, refl)

  modify_lem :
      (f : UpdiSession S → UpdiSession S)
      → ((s : UpdiSession S) → Unconnected s → Unconnected (f s))
      → (s : UpdiSession S) → Unconnected s
      → Unconnected (modify f s).1
  unfolding modify
  modify_lem f k s u = k s u
