-- ===== src/Auth/Counters.antt =====
-- What backend/src/modules/auth/application/login-attempt.service.ts relies on of Redis, which is
-- not part of the repository. A key is the kind of the counter with the e-mail address.
use kapis_receptionist.Prelude.{ℕ}

pub data CounterKey : Type 0 where
  attempts_key lockout_key : ℕ → CounterKey

-- Each command has the instant at which the server runs it, in milliseconds.
pub record Counters (R : Type 0) : Type 0 where
  pub incr : ℕ → CounterKey → R → ℕ × R
  pub expire : ℕ → CounterKey → ℕ → R → R
  pub ttl : ℕ → CounterKey → R → ℕ  -- the seconds left; 0 for the negative replies of a missing key
  pub set_ex : ℕ → CounterKey → ℕ → R → R
  pub del : CounterKey → R → R
