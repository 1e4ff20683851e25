-- ===== src/Auth/Login.antt =====
-- `login` of backend/src/modules/auth/application/auth.service.ts.
use kapis_receptionist.Prelude.{ℕ, not, Option, none, some, if◌then◌else◌}
use kapis_receptionist.Auth.Users.{update_last_login_at, find_user_by_email, find_tenant_by_id}
use kapis_receptionist.Prelude.Action.{modify, ◌>>=◌, pure, throw_if, throw, gets, ◌>>◌}
use kapis_receptionist.Auth.Accounts.{tenant_of, signed_in, AuthenticatedSession, LoginInput}
use kapis_receptionist.Auth.LoginAttempts.{
  record_failure, get_lockout_status, record_success, LockoutStatus,
}
use kapis_receptionist.Auth.Sessions.{RequestMeta, sign_access_token, issue_session}
use kapis_receptionist.Auth.Tables.{
  account_deactivated, Primitives, account_locked, AuthAction, AuthStore, AuthEnv,
  email_not_verified, AuthUser, invalid_credentials,
}
use kapis_receptionist.Auth.Counters.{Counters}
use kapis_receptionist.Auth.Invitations.{normalize_email}

abbrev pub with_hash : AuthUser → Option ℕ → Option (AuthUser × ℕ)
with_hash user none = none
with_hash user (some hash) = some (user, hash)

-- The user with the hash that the password is compared with.
abbrev pub with_password_hash : Option AuthUser → Option (AuthUser × ℕ)
with_password_hash none = none
with_password_hash (some user) = with_hash user user.password_hash

module _ {R : Type 0} ⦃c : Counters R⦄ (k : Primitives) (env : AuthEnv) where
  unfoldable pub lockout_of : ℕ → AuthStore R → LockoutStatus
  unfolding get_lockout_status
  lockout_of email s = get_lockout_status env.now email s.redis

  -- A failed attempt is counted before the credentials are refused.
  unfoldable pub refuse_credentials : {A : Type 0} → ℕ → AuthAction R A
  unfolding ◌>>=◌ record_failure
  refuse_credentials email = do
    modify (λ s. record s { redis = (record_failure k env.now email s.redis).1 })
    throw invalid_credentials

  abbrev pub check_password : ℕ → ℕ → Option (AuthUser × ℕ) → AuthAction R AuthUser
  check_password email password none = refuse_credentials email
  check_password email password (some (user, hash)) =
      if k.argon2_verify hash password then pure user else refuse_credentials email

  abbrev pub clear_attempts : ℕ → AuthAction R (Unit {0})
  clear_attempts email = modify (λ s. record s { redis = record_success email s.redis })

  unfoldable pub login : LoginInput → RequestMeta → AuthAction R AuthenticatedSession
  unfolding ◌>>=◌ lockout_of find_user_by_email refuse_credentials record_success
      update_last_login_at find_tenant_by_id sign_access_token issue_session
  login input info = do
    lockout ← gets (lockout_of (normalize_email k input.email))
    throw_if lockout.locked (account_locked lockout.retry_after_seconds)
    found ← gets (find_user_by_email (normalize_email k input.email))
    user ← check_password (normalize_email k input.email) input.password (with_password_hash found)
    throw_if (not user.is_active) account_deactivated
    throw_if (not user.is_email_verified) email_not_verified
    clear_attempts (normalize_email k input.email)
    update_last_login_at user.id env.now
    tenant ← gets (tenant_of k env user.tenant_id)
    session ← issue_session k env user.id info
    pure (signed_in k (record user { last_login_at = some env.now }) tenant session)
