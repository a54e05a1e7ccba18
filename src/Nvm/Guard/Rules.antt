-- ===== src/Nvm/Guard/Rules.antt =====
-- The rules of the discipline for the accesses of a driver, and for its polling loop.
use updi_programmer.Prelude.{ℕ, zero, suc, ◌≡◌, refl, Bool, true, false, ◌∷◌}
use updi_programmer.Exec.{Exec, Error, Result, ok, err, pure, raise, raise_if, ◌>>=◌, ◌>>◌}
use updi_programmer.Exec.Triple.{Triple, Post, Triple-bind}
use updi_programmer.Timeout.{Timeout, poll_loop, poll_until, expired, start_timeout}
use updi_programmer.Nvm.Controller.{Bus, or_timeout}
use updi_programmer.Nvm.Log.{Event, Logged, logged, log_call}
use updi_programmer.Nvm.Guard.{Rule, Good, Ready, ready}

module _ {S : Type 0} (rule : Rule) (bus : Bus S) where
  abbrev pub OnError : Error → Logged S → Type 0
  OnError _ s = Good rule s

  abbrev pub Guards : (P : Logged S → Type 0) → Exec (Logged S) Unit → (Logged S → Type 0) → Type 0
  Guards P m Q = Triple P m (λ _. Q) OnError

  -- what a poll of the status register, or a wait for it, establishes
  abbrev pub Watches : Exec (Logged S) Bool → Type 0
  Watches m =
      Triple (Good rule) m (λ done s. Good rule s × (done ≡ true → ready rule s.events ≡ true))
        OnError

  expired_lem :
      (t : Timeout) → Triple (Good rule) (expired (logged bus).clock t) (λ _ s. Good rule s) OnError
  unfolding expired ◌>>=◌
  expired_lem t = record { run = λ s h. h }

  poll_loop_lem :
      (fuel : ℕ) (t : Timeout) (poll : Exec (Logged S) Bool)
      → Watches poll
      → Watches (poll_loop (logged bus).clock fuel t poll)
  unfolding poll_loop pure raise
  poll_loop_lem zero t poll w = record { run = λ s h. h }
  poll_loop_lem (suc fuel) t poll w =
      let again : Bool → Exec (Logged S) Bool = elim [
        | true ↦ pure true
        | false ↦ poll_loop (logged bus).clock fuel t poll
      ] in
      let try : Bool → Exec (Logged S) Bool = elim [ true ↦ pure false | false ↦ poll >>= again ] in
      let ih = poll_loop_lem fuel t poll w in
      Triple-bind (expired (logged bus).clock t) try (expired_lem t) (elim [
        | true ↦ record { run = λ s h. (h, λ e. cc) }
        | false ↦ Triple-bind poll again w (elim [
          | true ↦ record { run = λ s h. h }
          | false ↦ record { run = λ s h. ih.run s h.0 }
        ])
      ])

  pub poll_until-Watches :
      (fuel ms : ℕ) (poll : Exec (Logged S) Bool)
      → Watches poll
      → Watches (poll_until (logged bus).clock fuel ms poll)
  unfolding poll_until start_timeout ◌>>=◌
  poll_until-Watches fuel ms poll w = record { run = λ s h. (poll_loop_lem fuel _ poll w).run _ h }

  -- a wait, and the raise that follows it where it timed out
  pub or_timeout-Ready :
      (wait : Exec (Logged S) Bool)
      → Watches wait
      → Guards (Good rule) (wait >>= or_timeout) (Ready rule)
  unfolding or_timeout raise_if
  or_timeout-Ready wait w = Triple-bind wait _ w (elim [
    | true ↦ record { run = λ s h. (h.0, h.1 refl) }
    | false ↦ record { run = λ s h. h.0 }
  ])

  pub or_timeout-Good : (b : Bool) → Guards (Good rule) (or_timeout b) (Good rule)
  unfolding or_timeout raise_if
  or_timeout-Good true = record { run = λ s h. h }
  or_timeout-Good false = record { run = λ s h. h }

  -- An access that leaves the log as it is, or adds one event to it, moves the log from `P` to `Q`.
  pub log_call-Guards :
      {P Q : Logged S → Type 0} (event : Event) (call : Exec S Unit)
      → ((s : Logged S) (w : S) → P s → Q (record { world = w; events = event ∷ s.events }))
      → ((s : Logged S) → Q s → Good rule s)
      → Guards P (log_call event call) Q
  unfolding log_call
  log_call-Guards {P} {Q} event call step weak = record { run = λ s h. go s h (call s.world).0 }
    where
      go :
          (s : Logged S)
          → P s
          → (r : Result Unit)
          → Post
              (λ _. Q)
              OnError
              (r, record { world = (call s.world).1; events = event ∷ s.events })
      go s h (ok _) = step s (call s.world).1 h
      go s h (err _) =
          weak (record { world = (call s.world).1; events = event ∷ s.events })
            (step s (call s.world).1 h)

  -- One call after another.
  pub Guards-then :
      {P Q R : Logged S → Type 0} (m n : Exec (Logged S) Unit)
      → Guards P m Q
      → Guards Q n R
      → Guards P (m >> n) R
  Guards-then m n first next = Triple-bind m (λ _. n) first (λ _. next)
