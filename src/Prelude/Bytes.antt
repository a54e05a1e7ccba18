-- ===== src/Prelude/Bytes.antt =====
-- Facts about every byte, by evaluation of a test.
use updi_programmer.Prelude.{ℕ, zero, suc, ◌<◌, ◌≡◌, Bool, true, false, if◌then◌else◌, arith}

-- a test of the numbers below `n`, from the top down, that stops at the first failure
unfoldable pub passes : (ℕ → Bool) → ℕ → Bool
passes test zero = true
passes test (suc n) = if test n then passes test n else false

pub passes_sound : (test : ℕ → Bool) (n k : ℕ) → k < n → passes test n ≡ true → test k ≡ true
unfolding passes
passes_sound test zero k lt all = absurd (omega arith)
passes_sound test (suc n) k lt all = ground (arith, passes_sound test n k)
