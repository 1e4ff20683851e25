-- ===== src/Auth/Requests.antt =====
-- The requests of the auth and invitation services, in the order in which they arrive, and what
-- they leave alone.
use kapis_receptionist.Prelude.Action.{Keeps}
use kapis_receptionist.Prelude.{ℕ, Option, List, [], ◌∷◌}
use kapis_receptionist.Auth.Tables.{
  AuthTenant, EmailVerificationRecord, Mail, Primitives, RefreshTokenRecord, AuthUser, AuthEnv,
  InvitationEvent, TenantInvitation, PasswordResetRecord, AuthStore,
}
use kapis_receptionist.Auth.Accounts.{
  reset_password, register, refresh, forgot_password, LoginInput, RegisterInput, verify_email,
  logout, resend_verification, accept_invitation, AcceptInput,
}
use kapis_receptionist.Auth.Counters.{Counters}
use kapis_receptionist.Auth.Sessions.{
  RequestMeta, revoke_all_active_for_user, revoke_session, create_session,
}
use kapis_receptionist.Rbac.{AccessTokenPayload}
use kapis_receptionist.Auth.Invitations.{
  revoke_invitation, CreateInvitationInput, create_invitation,
}
use kapis_receptionist.Auth.Login.{login}
use kapis_receptionist.Billing.Entitlement.{BillingStore}
use kapis_receptionist.Auth.Users.{
  invalidate_active_verifications, invalidate_active_resets, create_verification, create_reset,
  mark_verified, mark_used,
}
use kapis_receptionist.Prelude.Action.{Keeps}

pub data AuthRequest : Type 0 where
  register_request : RegisterInput → AuthRequest
  login_request : LoginInput → RequestMeta → AuthRequest
  refresh_request : ℕ → RequestMeta → AuthRequest
  logout_request : ℕ → AuthRequest
  accept_request : AcceptInput → RequestMeta → AuthRequest
  resend_request : ℕ → AuthRequest
  verify_request : ℕ → AuthRequest
  forgot_request : ℕ → AuthRequest
  reset_request : ℕ → ℕ → AuthRequest
  invite_request : ℕ → AccessTokenPayload → CreateInvitationInput → AuthRequest
  revoke_invitation_request : ℕ → ℕ → AccessTokenPayload → AuthRequest

module _ {R : Type 0} ⦃c : Counters R⦄ (k : Primitives) where
  -- The state after a request, whether it was answered or refused.
  unfoldable pub serve : AuthEnv → AuthRequest → AuthStore R → AuthStore R
  unfolding register login refresh logout accept_invitation resend_verification verify_email
      forgot_password reset_password create_invitation revoke_invitation
  serve env (register_request input) s = (register k env input s).1
  serve env (login_request input info) s = (login k env input info s).1
  serve env (refresh_request raw info) s = (refresh k env raw info s).1
  serve env (logout_request raw) s = (logout k env raw s).1
  serve env (accept_request input info) s = (accept_invitation k env input info s).1
  serve env (resend_request email) s = (resend_verification k env email s).1
  serve env (verify_request raw) s = (verify_email k env raw s).1
  serve env (forgot_request email) s = (forgot_password k env email s).1
  serve env (reset_request raw password) s = (reset_password k env raw password s).1
  serve env (invite_request tenant actor input) s = (create_invitation k env tenant actor input s).1
  serve env (revoke_invitation_request tenant id actor) s =
      (revoke_invitation env tenant id actor s).1

  unfoldable pub serve_all : List (AuthEnv × AuthRequest) → AuthStore R → AuthStore R
  unfolding serve
  serve_all [] s = s
  serve_all ((env, q) ∷ qs) s = serve_all qs (serve env q s)

-- What holds of the tables of tokens whatever is written to the other ones.
pub record Stable {R : Type 0} (P : AuthStore R → Type 0) : Type 0 where
  pub keeps_users : (s : AuthStore R) (x : List AuthUser) → P s → P (record s { users = x })
  pub keeps_tenants : (s : AuthStore R) (x : List AuthTenant) → P s → P (record s { tenants = x })
  pub keeps_settings : (s : AuthStore R) (x : List ℕ) → P s → P (record s { tenant_settings = x })
  pub keeps_billing : (s : AuthStore R) (x : BillingStore) → P s → P (record s { billing = x })
  pub keeps_invitations :
      (s : AuthStore R) (x : List TenantInvitation) → P s → P (record s { invitations = x })
  pub keeps_audit : (s : AuthStore R) (x : List InvitationEvent) → P s → P (record s { audit = x })
  pub keeps_mails : (s : AuthStore R) (x : List Mail) → P s → P (record s { mails = x })
  pub keeps_redis : (s : AuthStore R) (x : R) → P s → P (record s { redis = x })
  pub session_created : (row : RefreshTokenRecord) → Keeps P (create_session row)
  pub session_revoked : (now id : ℕ) (next : Option ℕ) → Keeps P (revoke_session now id next)
  pub all_revoked : (now user_id : ℕ) → Keeps P (revoke_all_active_for_user now user_id)
  pub verification_created : (row : EmailVerificationRecord) → Keeps P (create_verification row)
  pub verification_marked : (now id : ℕ) → Keeps P (mark_verified now id)
  pub verifications_invalidated : (user_id : ℕ) → Keeps P (invalidate_active_verifications user_id)
  pub reset_created : (row : PasswordResetRecord) → Keeps P (create_reset row)
  pub reset_marked : (now id : ℕ) → Keeps P (mark_used now id)
  pub resets_invalidated : (user_id : ℕ) → Keeps P (invalidate_active_resets user_id)
