-- ===== src/Auth/Accounts.antt =====
-- backend/src/modules/auth/application/auth.service.ts. A line of the security log is no state.
use kapis_receptionist.Prelude.{
  ℕ, ◌+◌, ◌*◌, Bool, true, ◌||◌, Option, none, some, if◌then◌else◌, is_some,
}
use kapis_receptionist.Auth.Tables.{
  invalid_or_expired_token, AuthTenant, Primitives, PasswordResetRecord, email_already_exists,
  reset_password_mail, AuthAction, AuthStore, AuthEnv, AuthUser, unauthorized,
  EmailVerificationRecord, verify_email_mail,
}
use kapis_receptionist.Auth.Users.{
  find_user_by_email, find_tenant_by_id, mark_used, create_reset, find_verification, mark_verified,
  mark_email_verified, find_user_by_id, invalidate_active_verifications, create_verification,
  invalidate_active_resets, find_reset, send_email, update_password,
}
use kapis_receptionist.Auth.Invitations.{
  mark_accepted, is_expired_at, normalize_email, validate_and_consume,
}
use kapis_receptionist.Rbac.{AccessTokenPayload}
use kapis_receptionist.Auth.Registration.{register_invited_user, register_tenant_owner}
use kapis_receptionist.Prelude.Action.{◌>>=◌, pure, throw_if, or_throw, gets, ◌>>◌}
use kapis_receptionist.Auth.Sessions.{
  RequestMeta, rotate, IssuedSession, sign_access_token, revoke_token, hash_opaque_token,
  revoke_all_for_user, issue_session,
}

pub record RegisterInput : Type 0 where
  pub email : ℕ
  pub password : ℕ
  pub first_name : ℕ
  pub last_name : ℕ
  pub tenant_name : ℕ
  pub timezone : ℕ

pub record LoginInput : Type 0 where
  pub email : ℕ
  pub password : ℕ

pub record AcceptInput : Type 0 where
  pub token : ℕ
  pub first_name : ℕ
  pub last_name : ℕ
  pub password : ℕ

pub record AuthenticatedSession : Type 0 where
  pub user : AuthUser
  pub tenant : Option AuthTenant
  pub access_token : ℕ
  pub expires_in : ℕ
  pub raw_refresh_token : ℕ

pub record RefreshedSession : Type 0 where
  pub access_token : ℕ
  pub expires_in : ℕ
  pub raw_refresh_token : ℕ

abbrev pub to_access_token_payload : AuthUser → AccessTokenPayload
to_access_token_payload u = record { sub = u.id; roles = u.roles }

abbrev pub verification_row : Primitives → AuthEnv → ℕ → EmailVerificationRecord
verification_row k env user_id = record {
  id = env.new_id;
  user_id = user_id;
  token_hash = hash_opaque_token k env.opaque_token;
  expires_at = env.now + k.email_verification_expires_in_seconds * 1000;
  verified_at = none;
  created_at = env.now;
}

abbrev pub reset_row : Primitives → AuthEnv → ℕ → PasswordResetRecord
reset_row k env user_id = record {
  id = env.new_id;
  user_id = user_id;
  token_hash = hash_opaque_token k env.opaque_token;
  expires_at = env.now + k.password_reset_expires_in_seconds * 1000;
  used_at = none;
  created_at = env.now;
}

-- `!record || record.verifiedAt || record.expiresAt < now`
abbrev pub is_dead_verification : ℕ → EmailVerificationRecord → Bool
is_dead_verification now v = is_some v.verified_at || is_expired_at now v.expires_at

abbrev pub is_dead_reset : ℕ → PasswordResetRecord → Bool
is_dead_reset now p = is_some p.used_at || is_expired_at now p.expires_at

abbrev pub signed_in :
    Primitives → AuthUser → Option AuthTenant → IssuedSession → AuthenticatedSession
signed_in k user tenant session = record {
  user = user;
  tenant = tenant;
  access_token = (sign_access_token k (to_access_token_payload user)).0;
  expires_in = (sign_access_token k (to_access_token_payload user)).1;
  raw_refresh_token = session.raw_refresh_token;
}

module _ {R : Type 0} (k : Primitives) (env : AuthEnv) where
  unfoldable pub issue_and_send_verification_email : AuthUser → AuthAction R (Unit {0})
  unfolding ◌>>=◌ invalidate_active_verifications create_verification send_email hash_opaque_token
  issue_and_send_verification_email user = do
    invalidate_active_verifications user.id
    create_verification (verification_row k env user.id)
    send_email env (verify_email_mail user.email env.opaque_token)

  unfoldable pub issue_and_send_password_reset_email : AuthUser → AuthAction R (Unit {0})
  unfolding ◌>>=◌ invalidate_active_resets create_reset send_email hash_opaque_token
  issue_and_send_password_reset_email user = do
    invalidate_active_resets user.id
    create_reset (reset_row k env user.id)
    send_email env (reset_password_mail user.email env.opaque_token)

  unfoldable pub register : RegisterInput → AuthAction R (AuthUser × AuthTenant)
  unfolding ◌>>=◌ find_user_by_email register_tenant_owner issue_and_send_verification_email
  register input = do
    existing ← gets (find_user_by_email (normalize_email k input.email))
    throw_if (is_some existing) email_already_exists
    result ← register_tenant_owner k env (record {
      email = normalize_email k input.email;
      password_hash = k.argon2_hash env.salt input.password;
      first_name = k.trim input.first_name;
      last_name = k.trim input.last_name;
      tenant_name = k.trim input.tenant_name;
      timezone = input.timezone;
    })
    issue_and_send_verification_email result.0
    pure result

  -- `tenantId ? await this.tenants.findById(tenantId) : null`
  abbrev pub tenant_of : Option ℕ → AuthStore R → Option AuthTenant
  tenant_of none s = none
  tenant_of (some id) s = find_tenant_by_id id s

  unfoldable pub refresh : ℕ → RequestMeta → AuthAction R RefreshedSession
  unfolding ◌>>=◌ rotate find_user_by_id sign_access_token
  refresh raw info = do
    rotated ← rotate k env raw info
    found ← gets (find_user_by_id rotated.user_id)
    user ← or_throw found unauthorized
    pure (record {
      access_token = (sign_access_token k (to_access_token_payload user)).0;
      expires_in = (sign_access_token k (to_access_token_payload user)).1;
      raw_refresh_token = rotated.session.raw_refresh_token;
    })

  unfoldable pub logout : ℕ → AuthAction R (Unit {0})
  unfolding revoke_token
  logout raw = revoke_token k env raw

  unfoldable pub me : ℕ → Option ℕ → AuthAction R (AuthUser × Option AuthTenant × Option ℕ)
  unfolding ◌>>=◌ find_user_by_id find_tenant_by_id
  me user_id effective = do
    found ← gets (find_user_by_id user_id)
    user ← or_throw found unauthorized
    tenant ← gets (tenant_of effective)
    pure (user, tenant, effective)

  unfoldable pub accept_invitation : AcceptInput → RequestMeta → AuthAction R AuthenticatedSession
  unfolding ◌>>=◌ validate_and_consume find_user_by_email register_invited_user mark_accepted
      find_tenant_by_id sign_access_token issue_session
  accept_invitation input info = do
    consumed ← validate_and_consume k env input.token
    existing ← gets (find_user_by_email (normalize_email k consumed.email))
    throw_if (is_some existing) email_already_exists
    user ←
        register_invited_user env consumed (k.argon2_hash env.salt input.password)
          (k.trim input.first_name) (k.trim input.last_name)
    mark_accepted env consumed.invitation_id consumed.tenant_id user.id
    tenant ← gets (find_tenant_by_id consumed.tenant_id)
    session ← issue_session k env user.id info
    pure (signed_in k user tenant session)

  -- `if (user && !user.isEmailVerified) ...`
  abbrev pub resend_to : Option AuthUser → AuthAction R (Unit {0})
  resend_to none = pure tt
  resend_to (some user) =
      if user.is_email_verified then pure tt else issue_and_send_verification_email user

  unfoldable pub resend_verification : ℕ → AuthAction R (Unit {0})
  unfolding ◌>>=◌ find_user_by_email issue_and_send_verification_email
  resend_verification email = do
    found ← gets (find_user_by_email (normalize_email k email))
    resend_to found

  unfoldable pub verify_email : ℕ → AuthAction R AuthUser
  unfolding ◌>>=◌ find_verification mark_verified mark_email_verified find_user_by_id
      hash_opaque_token
  verify_email raw = do
    found ← gets (find_verification (hash_opaque_token k raw))
    row ← or_throw found invalid_or_expired_token
    throw_if (is_dead_verification env.now row) invalid_or_expired_token
    mark_verified env.now row.id
    mark_email_verified row.user_id
    reread ← gets (find_user_by_id row.user_id)
    user ← or_throw reread unauthorized
    pure (record user { is_email_verified = true })

  abbrev pub reset_for : Option AuthUser → AuthAction R (Unit {0})
  reset_for none = pure tt
  reset_for (some user) = issue_and_send_password_reset_email user

  unfoldable pub forgot_password : ℕ → AuthAction R (Unit {0})
  unfolding ◌>>=◌ find_user_by_email issue_and_send_password_reset_email
  forgot_password email = do
    found ← gets (find_user_by_email (normalize_email k email))
    reset_for found

  unfoldable pub reset_password : ℕ → ℕ → AuthAction R (Unit {0})
  unfolding ◌>>=◌ find_reset update_password mark_used revoke_all_for_user hash_opaque_token
  reset_password raw password = do
    found ← gets (find_reset (hash_opaque_token k raw))
    row ← or_throw found invalid_or_expired_token
    throw_if (is_dead_reset env.now row) invalid_or_expired_token
    update_password row.user_id (k.argon2_hash env.salt password)
    mark_used env.now row.id
    revoke_all_for_user env row.user_id
    pure tt
