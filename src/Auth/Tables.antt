-- ===== src/Auth/Tables.antt =====
-- The rows of backend/src/modules/auth/domain/entities and of the tenant invitations, what the
-- module throws, and what it uses from outside the repository. Texts that are only stored and
-- compared (names, addresses, tokens, hashes) are numbers.
use kapis_receptionist.Prelude.{ℕ, Bool, Option, List}
use kapis_receptionist.Prelude.Action.{Action}
use kapis_receptionist.Billing.Entitlement.{BillingStore}
use kapis_receptionist.Rbac.{RoleName, AccessTokenPayload}
use kapis_receptionist.Rows.{TenantStatus}

pub record AuthUser : Type 0 where
  pub id : ℕ
  pub tenant_id : Option ℕ
  pub email : ℕ
  pub password_hash : Option ℕ
  pub first_name : ℕ
  pub last_name : ℕ
  pub is_active : Bool
  pub is_email_verified : Bool
  pub last_login_at : Option ℕ
  pub created_at : ℕ
  pub roles : List RoleName

-- The columns that the module reads or writes.
pub record AuthTenant : Type 0 where
  pub id : ℕ
  pub name : ℕ
  pub slug : ℕ
  pub status : TenantStatus
  pub timezone : ℕ
  pub trial_ends_at : Option ℕ
  pub created_at : ℕ

pub record RefreshTokenRecord : Type 0 where
  pub id : ℕ
  pub user_id : ℕ
  pub refresh_token_hash : ℕ
  pub user_agent : Option ℕ
  pub ip_address : Option ℕ
  pub expires_at : ℕ
  pub revoked_at : Option ℕ
  pub replaced_by_session_id : Option ℕ
  pub created_at : ℕ

pub record EmailVerificationRecord : Type 0 where
  pub id : ℕ
  pub user_id : ℕ
  pub token_hash : ℕ
  pub expires_at : ℕ
  pub verified_at : Option ℕ
  pub created_at : ℕ

pub record PasswordResetRecord : Type 0 where
  pub id : ℕ
  pub user_id : ℕ
  pub token_hash : ℕ
  pub expires_at : ℕ
  pub used_at : Option ℕ
  pub created_at : ℕ

-- A row of `tenant_invitations`; the role stands for `roleId` with its name.
pub record TenantInvitation : Type 0 where
  pub id : ℕ
  pub tenant_id : ℕ
  pub email : ℕ
  pub role : RoleName
  pub invited_by_user_id : ℕ
  pub token_hash : ℕ
  pub expires_at : ℕ
  pub accepted_at : Option ℕ
  pub revoked_at : Option ℕ
  pub created_at : ℕ

-- An e-mail that the mail server was given, with the token of its link.
pub data Mail : Type 0 where
  verify_email_mail : ℕ → ℕ → Mail
  reset_password_mail : ℕ → ℕ → Mail
  invitation_mail : ℕ → RoleName → ℕ → Mail

-- Tenant, actor and entity of a row of `audit_logs` on an invitation.
pub data InvitationEvent : Type 0 where
  invitation_created : ℕ → ℕ → ℕ → InvitationEvent
  invitation_revoked : ℕ → ℕ → ℕ → InvitationEvent
  invitation_accepted : ℕ → ℕ → ℕ → InvitationEvent

pub data UniqueColumn : Type 0 where
  email_column slug_column session_hash_column verification_hash_column : UniqueColumn
  reset_hash_column invitation_hash_column tenant_column : UniqueColumn

pub data AuthError : Type 0 where
  email_already_exists invalid_credentials account_deactivated email_not_verified : AuthError
  account_locked : ℕ → AuthError
  invalid_refresh_token refresh_token_reuse_detected invalid_or_expired_token : AuthError
  unauthorized invalid_or_expired_invitation invitation_already_pending : AuthError
  resource_not_found role_not_seeded no_active_plan no_unique_slug : AuthError
  mail_not_sent : AuthError
  unique_violation : UniqueColumn → AuthError  -- Prisma's P2002
  row_not_found : AuthError  -- Prisma's P2025

-- `R` is the keyspace of Redis.
pub record AuthStore (R : Type 0) : Type 0 where
  pub users : List AuthUser
  pub tenants : List AuthTenant
  pub tenant_settings : List ℕ
  pub seeded_roles : List RoleName
  pub billing : BillingStore
  pub sessions : List RefreshTokenRecord
  pub verifications : List EmailVerificationRecord
  pub resets : List PasswordResetRecord
  pub invitations : List TenantInvitation
  pub audit : List InvitationEvent
  pub mails : List Mail
  pub redis : R

-- What one request draws from outside: the clock, the identifiers that the database generates (a
-- request inserts at most one row in each table), and the random values.
pub record AuthEnv : Type 0 where
  pub now : ℕ
  pub new_id : ℕ
  pub refresh_token : ℕ
  pub opaque_token : ℕ
  pub salt : ℕ
  pub slug_suffix : ℕ → ℕ  -- one for each attempt
  pub mail_sent : Bool  -- whether the mail server accepts a mail now

-- Node's crypto, argon2, the JWT library and the text methods, and the values of the configuration.
pub record Primitives : Type 0 where
  pub hmac : ℕ → ℕ → ℕ
  pub sha256 : ℕ → ℕ
  pub argon2_hash : ℕ → ℕ → ℕ
  pub argon2_verify : ℕ → ℕ → Bool
  pub jwt_sign : AccessTokenPayload → ℕ → ℕ → ℕ
  pub trim : ℕ → ℕ
  pub to_lower_case : ℕ → ℕ
  pub slugify : ℕ → Option ℕ  -- none for the empty text
  pub salon_slug : ℕ
  pub with_random_suffix : ℕ → ℕ → ℕ
  pub refresh_pepper : ℕ
  pub access_secret : ℕ
  pub access_expires_in_seconds : ℕ
  pub refresh_expires_in_seconds : ℕ
  pub email_verification_expires_in_seconds : ℕ
  pub password_reset_expires_in_seconds : ℕ
  pub invitation_expires_in_seconds : ℕ
  pub attempt_window_seconds : ℕ
  pub max_attempts : ℕ
  pub lockout_seconds : ℕ

abbrev pub AuthAction : Type 0 → Type 0 → Type 0
AuthAction R A = Action (AuthStore R) AuthError A
