-- ===== src/Auth/Lockout.antt =====
-- Failed logins and the lockout: `login` of
-- backend/src/modules/auth/application/auth.service.ts with login-attempt.service.ts.
use kapis_receptionist.Prelude.{
  ℕ, ◌+◌, ◌*◌, ◌≤◌, ◌<◌, ◌≡◌, refl, false, Option, none, some, arith, ltb,
}
use kapis_receptionist.Auth.LoginAttempts.{record_failure, get_lockout_status}
use kapis_receptionist.Auth.Tables.{
  invalid_credentials, account_locked, Primitives, AuthEnv, AuthStore, AuthUser,
}
use kapis_receptionist.Auth.Counters.{lockout_key, attempts_key, CounterKey, Counters}
use kapis_receptionist.Auth.Login.{
  refuse_credentials, check_password, lockout_of, with_password_hash, login,
}
use kapis_receptionist.Auth.Invitations.{normalize_email}
use kapis_receptionist.Auth.Sessions.{RequestMeta}
use kapis_receptionist.Auth.Accounts.{LoginInput}
use kapis_receptionist.Auth.Users.{find_user_by_email}
use kapis_receptionist.Prelude.Action.{err}

-- What Redis documents of the commands: INCR replies the new count; a key that was set with a
-- time to live answers TTL with a positive number until its last second; DEL of another key does
-- not change that.
pub record CounterLaws {R : Type 0} (c : Counters R) (count : ℕ → CounterKey → R → ℕ) : Type 0 where
  pub incr-count : (now : ℕ) (key : CounterKey) (r : R) → (c.incr now key r).0 ≡ count now key r + 1
  pub ttl-set_ex :
      (now now' : ℕ) (key : CounterKey) (seconds : ℕ) (r : R)
      → now ≤ now'
      → now' + 1000 ≤ now + seconds * 1000
      → 0 < c.ttl now' key (c.set_ex now key seconds r)
  pub ttl-del :
      (now email : ℕ) (r : R)
      → c.ttl now (lockout_key email) (c.del (attempts_key email) r)
        ≡ c.ttl now (lockout_key email) r

module _ {R : Type 0} ⦃c : Counters R⦄ {count : ℕ → CounterKey → R → ℕ} (laws : CounterLaws c count)
    (k : Primitives) where
  record_failure-locks :
      (now now' email : ℕ) (r : R)
      → k.max_attempts ≤ count now (attempts_key email) r + 1
      → now ≤ now'
      → now' + 1000 ≤ now + k.lockout_seconds * 1000
      → 0 < c.ttl now' (lockout_key email) (record_failure k now email r).1
  unfolding record_failure
  record_failure-locks now now' email r reached later early =
      let full : ltb (c.incr now (attempts_key email) r).0 k.max_attempts ≡ false =
        rw (laws.incr-count now (attempts_key email) r) (ground arith) in
      rw (full, laws.ttl-del now' email)
        (laws.ttl-set_ex now now' (lockout_key email) k.lockout_seconds _ later early)

-- The credentials of a login do not match: no such account, no password, or another password.
abbrev pub IsWrong : Primitives → ℕ → Option (AuthUser × ℕ) → Type 0
IsWrong k password none = Unit {0}
IsWrong k password (some (user, hash)) = k.argon2_verify hash password ≡ false

module _ {R : Type 0} ⦃c : Counters R⦄ (k : Primitives) where
  check_password-IsWrong :
      (env : AuthEnv) (email password : ℕ) (o : Option (AuthUser × ℕ)) (s : AuthStore R)
      → IsWrong k password o
      → check_password k env email password o s
        ≡ (err invalid_credentials, record s { redis = (record_failure k env.now email s.redis).1 })
  unfolding refuse_credentials
  check_password-IsWrong env email password none s wrong = refl
  check_password-IsWrong env email password (some (user, hash)) s wrong = rw wrong refl

  login-IsWrong :
      (env : AuthEnv) (input : LoginInput) (info : RequestMeta) (s : AuthStore R)
      → c.ttl env.now (lockout_key (normalize_email k input.email)) s.redis ≡ 0
      → IsWrong k input.password
          (with_password_hash (find_user_by_email (normalize_email k input.email) s))
      → login k env input info s ≡ (
        err invalid_credentials,
        record s { redis = (record_failure k env.now (normalize_email k input.email) s.redis).1 },
      )
  unfolding login lockout_of get_lockout_status
  login-IsWrong env input info s free wrong =
      rw (free, check_password-IsWrong env (normalize_email k input.email) input.password _ s wrong)
        refl

  login-locked :
      (env : AuthEnv) (input : LoginInput) (info : RequestMeta) (s : AuthStore R)
      → 0 < c.ttl env.now (lockout_key (normalize_email k input.email)) s.redis
      → login k env input info s ≡ (
        err (account_locked (c.ttl env.now (lockout_key (normalize_email k input.email)) s.redis)),
        s,
      )
  unfolding login lockout_of get_lockout_status
  login-locked env input info s held = ground arith

-- A login with wrong credentials, for an address that is not locked out and has one failure less
-- than the maximum, is refused and locks the address: until a second before the lockout ends, each
-- login with the same address is refused as locked and changes nothing, whatever its password.
pub login_lockout :
    {R : Type 0} ⦃c : Counters R⦄ {count : ℕ → CounterKey → R → ℕ} (laws : CounterLaws c count)
    (k : Primitives) (env : AuthEnv) (input : LoginInput) (info : RequestMeta) (s : AuthStore R)
    → c.ttl env.now (lockout_key (normalize_email k input.email)) s.redis ≡ 0
    → IsWrong k input.password
        (with_password_hash (find_user_by_email (normalize_email k input.email) s))
    → k.max_attempts ≤ count env.now (attempts_key (normalize_email k input.email)) s.redis + 1
    → (later : AuthEnv) (input' : LoginInput) (info' : RequestMeta)
    → normalize_email k input'.email ≡ normalize_email k input.email
    → env.now ≤ later.now
    → later.now + 1000 ≤ env.now + k.lockout_seconds * 1000
    → ((login k env input info s).0 ≡ err invalid_credentials)
      × (n : ℕ) × (0 < n)
      × (login k later input' info' (login k env input info s).1
          ≡ (err (account_locked n), (login k env input info s).1))
login_lockout laws k env input info s free wrong reached later input' info' same after early =
    let wrongly = login-IsWrong k env input info s free wrong in
    let held =
      record_failure-locks laws k env.now later.now (normalize_email k input.email) s.redis reached
        after early in
    rw wrongly (refl, _, rw same held, login-locked k later input' info' _ (rw same held))
