-- ===== src/Auth/LoginAttempts.antt =====
-- backend/src/modules/auth/application/login-attempt.service.ts. A method returns its answer with
-- the new state of Redis.
use kapis_receptionist.Prelude.{ℕ, Bool, true, false, ltb, ◌==◌, if◌then◌else◌}
use kapis_receptionist.Auth.Counters.{attempts_key, lockout_key, Counters}
use kapis_receptionist.Auth.Tables.{Primitives}

pub record LockoutStatus : Type 0 where
  pub locked : Bool
  pub retry_after_seconds : ℕ

abbrev pub unlocked : LockoutStatus
unlocked = record { locked = false; retry_after_seconds = 0 }

abbrev pub locked_for : ℕ → LockoutStatus
locked_for seconds = record { locked = true; retry_after_seconds = seconds }

module _ {R : Type 0} ⦃c : Counters R⦄ where
  unfoldable pub get_lockout_status : ℕ → ℕ → R → LockoutStatus
  get_lockout_status now email r =
      let left = c.ttl now (lockout_key email) r in if ltb 0 left then locked_for left else unlocked

  -- `if (count === 1)`: the first failure starts the window.
  abbrev pub start_window : Primitives → ℕ → ℕ → ℕ → R → R
  start_window k now email count r =
      if count == 1 then c.expire now (attempts_key email) k.attempt_window_seconds r else r

  unfoldable pub record_failure : Primitives → ℕ → ℕ → R → LockoutStatus × R
  record_failure k now email r =
      let (count, counted) = c.incr now (attempts_key email) r in
      let r' = start_window k now email count counted in
      if ltb count k.max_attempts then (unlocked, r') else (
        locked_for k.lockout_seconds,
        c.del (attempts_key email) (c.set_ex now (lockout_key email) k.lockout_seconds r'),
      )

  unfoldable pub record_success : ℕ → R → R
  record_success email r = c.del (lockout_key email) (c.del (attempts_key email) r)
