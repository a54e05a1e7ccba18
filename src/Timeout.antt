-- ===== src/Timeout.antt =====
-- Polling under reference/pymcuprog/serialupdi/timeout.py: the loop
-- `while not timeout.expired(): <poll>` that the drivers and the application share.
use updi_programmer.Prelude.{ℕ, zero, suc, ◌+◌, Bool, true, false, ltb}
use updi_programmer.Exec.{Exec, out_of_fuel, pure, raise, lift, ◌>>=◌}
use updi_programmer.Serial.{Clock}

-- `Timeout`: both fields in milliseconds.
pub record Timeout : Type 0 where
  pub timeout_ms : ℕ
  pub start_time : ℕ

module _ {S : Type 0} (clock : Clock S) where
  -- `Timeout(timeout_ms)`
  unfoldable pub start_timeout : ℕ → Exec S Timeout
  unfolding ◌>>=◌
  start_timeout timeout_ms = do
    t ← lift clock.now
    pure (record { timeout_ms = timeout_ms; start_time = t })

  -- `time.time() - start_time > timeout_ms / 1000.0`, also for a clock that went back
  unfoldable pub expired : Timeout → Exec S Bool
  unfolding ◌>>=◌
  expired timeout = do t ← lift clock.now; pure (ltb (timeout.start_time + timeout.timeout_ms) t)

  -- The loop, on fuel: true as soon as a poll is, false when the time is up.
  unfoldable pub poll_loop : ℕ → Timeout → Exec S Bool → Exec S Bool
  unfolding ◌>>=◌ expired
  poll_loop zero timeout poll = raise out_of_fuel
  poll_loop (suc fuel) timeout poll = expired timeout >>= elim [
    | true ↦ pure false
    | false ↦ poll >>= elim [ true ↦ pure true | false ↦ poll_loop fuel timeout poll ]
  ]

  unfoldable pub poll_until : ℕ → ℕ → Exec S Bool → Exec S Bool
  unfolding ◌>>=◌ start_timeout poll_loop
  poll_until fuel timeout_ms poll = do
    timeout ← start_timeout timeout_ms
    poll_loop fuel timeout poll
