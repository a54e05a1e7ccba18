-- ===== src/Nvm/Guard/Access.antt =====
-- The accesses of the drivers of nvmp2.py to nvmp5.py under the discipline of the controller.
use updi_programmer.Prelude.{
  ℕ, ◌+◌, ◌^◌, ◌≡◌, ◌≢◌, refl, Bool, true, false, not, ◌&&◌, List, ◌∷◌, ◌==◌, bit_or, ne→==,
  if◌then◌else◌, ==_iff,
}
use updi_programmer.Exec.{Result, ok, err, pure, raise_if, Error, continue, ◌>>=◌}
use updi_programmer.Exec.Triple.{Post}
use updi_programmer.Nvm.Controller.{Bus, Registers, has_flags, poll_status, wait_nvm_ready}
use updi_programmer.Nvm.Log.{
  byte_read, byte_written, data_written, words_written, Logged, logged, log_read, log_result,
}
use updi_programmer.Nvm.Guard.{Rule, Good, Ready, ready}
use updi_programmer.Nvm.Guard.Rules.{Guards, Watches, OnError, log_call-Guards, poll_until-Watches}

module _ {S : Type 0} (rule : Rule) (bus : Bus S) where
  -- stores of data
  pub write_data-Guards :
      (a : ℕ) (bytes : List ℕ)
      → Guards rule bus (Ready rule) ((logged bus).readwrite.write_data a bytes) (Ready rule)
  write_data-Guards a bytes =
      log_call-Guards rule bus (data_written a bytes) _ (λ s w h. h) (λ s h. h.0)

  pub write_data_words-Guards :
      (a : ℕ) (bytes : List ℕ)
      → Guards rule bus (Ready rule) ((logged bus).readwrite.write_data_words a bytes) (Ready rule)
  write_data_words-Guards a bytes =
      log_call-Guards rule bus (words_written a bytes) _ (λ s w h. h) (λ s h. h.0)

  pub write_data-Good :
      (a : ℕ) (bytes : List ℕ)
      → Guards rule bus (Good rule) ((logged bus).readwrite.write_data a bytes) (Good rule)
  write_data-Good a bytes =
      log_call-Guards rule bus (data_written a bytes) _ (λ s w h. h) (λ s h. h)

  pub load-Guards :
      (a : ℕ) (bytes : List ℕ) (by_words : Bool)
      → Guards rule bus
          (Ready rule)
          (if by_words
            then (logged bus).readwrite.write_data_words a bytes
            else (logged bus).readwrite.write_data a bytes)
          (Ready rule)
  load-Guards a bytes true = write_data_words-Guards a bytes
  load-Guards a bytes false = write_data-Guards a bytes

  write_data_words-Good :
      (a : ℕ) (bytes : List ℕ)
      → Guards rule bus (Good rule) ((logged bus).readwrite.write_data_words a bytes) (Good rule)
  write_data_words-Good a bytes =
      log_call-Guards rule bus (words_written a bytes) _ (λ s w h. h) (λ s h. h)

  -- the data of a command that is armed already
  pub load-Good :
      (a : ℕ) (bytes : List ℕ) (by_words : Bool)
      → Guards rule bus
          (Good rule)
          (if by_words
            then (logged bus).readwrite.write_data_words a bytes
            else (logged bus).readwrite.write_data a bytes)
          (Good rule)
  load-Good a bytes true = write_data_words-Good a bytes
  load-Good a bytes false = write_data-Good a bytes

  -- a command, when the controller is ready
  pub command-Guards :
      (c : ℕ)
      → Guards rule bus
          (Ready rule)
          ((logged bus).readwrite.write_byte rule.ctrla_address c)
          (Good rule)
  command-Guards c =
      log_call-Guards rule bus (byte_written rule.ctrla_address c) _ (λ s w h. (λ _ _. h.1, h.0))
        (λ s h. h)

  -- a clearing command, at any time
  pub clear-Guards :
      (c : ℕ)
      → rule.is_clear c ≡ true
      → Guards rule bus
          (Good rule)
          ((logged bus).readwrite.write_byte rule.ctrla_address c)
          (Good rule)
  clear-Guards c clear =
      log_call-Guards rule bus (byte_written rule.ctrla_address c) _ (λ s w h. (λ _ e. cc, h))
        (λ s h. h)

  -- another register, when the controller is ready
  pub register-Guards :
      (a v : ℕ)
      → a ≢ rule.ctrla_address
      → Guards rule bus (Ready rule) ((logged bus).readwrite.write_byte a v) (Ready rule)
  register-Guards a v ne =
      log_call-Guards rule bus (byte_written a v) _
        (λ s w h. ((λ e. absurd (ne e), h.0), rw (ne→== a rule.ctrla_address ne) h.1)) (λ s h. h.0)

module _ {S : Type 0} (rule : Rule) (bus : Bus S) where
  abbrev Watched : Result Bool × Logged S → Type 0
  Watched =
      Post (λ done s. Good rule s × (done ≡ true → ready rule s.events ≡ true)) (OnError rule bus)

  -- a poll of the status register that raises on an error, and says whether the status is idle
  pub poll-Watches :
      (faulty busy : ℕ → Bool) (e : ℕ → Error)
      → ((v : ℕ) → faulty v ≡ false → not (busy v) ≡ true → rule.idle v ≡ true)
      → Watches rule bus (
          (logged bus).readwrite.read_byte rule.status_address >>= λ v.
          raise_if (faulty v) (e v) >>= λ _. pure (not (busy v)))
  unfolding log_read ◌>>=◌ raise_if
  poll-Watches faulty busy e idle = record {
    run =
        λ s h. let (r, w) = bus.readwrite.read_byte rule.status_address s.world in answered s h r w;
  }
    where
      settled :
          (s : Logged S) (v : ℕ) (w : S)
          → Good rule s
          → (b : Bool) → faulty v ≡ b
          → Watched (
              (raise_if b (e v) >>= λ _. pure (not (busy v)))
                (record { world = w; events = byte_read rule.status_address v ∷ s.events }))
      settled s v w h true f = h
      settled s v w h false f =
          (h, λ q. rw ((==_iff rule.status_address rule.status_address).1 refl) (idle v f q))

      answered :
          (s : Logged S)
          → Good rule s
          → (r : Result ℕ) (w : S)
          → Watched (
              continue r
                (λ v. raise_if (faulty v) (e v) >>= λ _. pure (not (busy v)))
                (record { world = w; events = log_result rule.status_address r s.events }))
      answered s h (ok v) w = settled s v w h (faulty v) refl
      answered s h (err _) w = h

module _ {S : Type 0} (registers : Registers) (bus : Bus S) where
  abbrev pub busy_mask : ℕ
  busy_mask = bit_or (2 ^ registers.eeprom_busy_bp) (2 ^ registers.flash_busy_bp)

  abbrev pub rule_of : Rule
  rule_of = record {
    status_address = bus.nvmctrl_address + registers.status;
    ctrla_address = bus.nvmctrl_address + registers.ctrla;
    idle = λ v. not (has_flags v registers.write_error_bm) && not (has_flags v busy_mask);
    is_clear = λ c. c == 0;
  }

  poll_status-Watches : Watches rule_of bus (poll_status registers (logged bus))
  unfolding poll_status
  poll_status-Watches =
      poll-Watches rule_of bus (λ v. has_flags v registers.write_error_bm)
        (λ v. has_flags v busy_mask) _ (λ v f q. rw (f, q))

  pub wait_nvm_ready-Watches : Watches rule_of bus (wait_nvm_ready registers (logged bus))
  unfolding wait_nvm_ready
  wait_nvm_ready-Watches = poll_until-Watches rule_of bus bus.fuel 100 _ poll_status-Watches
