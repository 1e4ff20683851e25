-- ===== src/Auth/Kept.antt =====
-- Requests of the auth service and the tables of tokens.
use kapis_receptionist.Auth.Requests.{Stable}
use kapis_receptionist.Prelude.Action.{Keeps, Keeps-modify, err, Result, ok, keeps_rules}
use kapis_receptionist.Prelude.{ℕ, zero, suc, arith}
use kapis_receptionist.Auth.Tables.{
  AuthStore, AuthUser, TenantInvitation, InvitationEvent, AuthEnv, AuthTenant, Mail, Primitives,
  AuthAction, AuthError,
}
use kapis_receptionist.Auth.Registration.{
  registration_writes, registration_attempts, create_tenant, retry_on_slug, attempt_registration,
  RegisterTenantOwnerInput, create_subscription,
}
use kapis_receptionist.Auth.Invitations.{
  record_event, mark_accepted, create_invitation_row, revoke_invitation_row,
}
use kapis_receptionist.Auth.Users.{
  mark_email_verified, update_user, create_user, update_password, update_last_login_at, send_email,
}
use kapis_receptionist.Billing.Entitlement.{Subscription}

module _ {R : Type 0} {P : AuthStore R → Type 0} (h : Stable P) where
  pub Keeps-update_user : (id : ℕ) (f : AuthUser → AuthUser) → Keeps P (update_user id f)
  unfolding update_user
  Keeps-update_user id f = search (keeps_rules, Keeps-modify, h.keeps_users) depth 12

  pub Keeps-update_last_login_at : (id instant : ℕ) → Keeps P (update_last_login_at id instant)
  unfolding update_last_login_at
  Keeps-update_last_login_at id instant = Keeps-update_user id _

  pub Keeps-mark_email_verified : (id : ℕ) → Keeps P (mark_email_verified id)
  unfolding mark_email_verified
  Keeps-mark_email_verified id = Keeps-update_user id _

  pub Keeps-update_password : (id hash : ℕ) → Keeps P (update_password id hash)
  unfolding update_password
  Keeps-update_password id hash = Keeps-update_user id _

  pub Keeps-create_user : (row : AuthUser) → Keeps P (create_user row)
  unfolding create_user
  Keeps-create_user row = search (keeps_rules, Keeps-modify, h.keeps_users) depth 12

  pub Keeps-send_email : (env : AuthEnv) (mail : Mail) → Keeps P (send_email env mail)
  unfolding send_email
  Keeps-send_email env mail = search (keeps_rules, Keeps-modify, h.keeps_mails) depth 12

  pub Keeps-record_event : (e : InvitationEvent) → Keeps P (record_event e)
  unfolding record_event
  Keeps-record_event e = search (keeps_rules, Keeps-modify, h.keeps_audit) depth 12

  pub Keeps-create_invitation_row : (row : TenantInvitation) → Keeps P (create_invitation_row row)
  unfolding create_invitation_row
  Keeps-create_invitation_row row = search (keeps_rules, Keeps-modify, h.keeps_invitations) depth 12

  pub Keeps-revoke_invitation_row :
      (now tenant id : ℕ) → Keeps P (revoke_invitation_row now tenant id)
  unfolding revoke_invitation_row
  Keeps-revoke_invitation_row now tenant id =
      search (keeps_rules, Keeps-modify, h.keeps_invitations) depth 12

  pub Keeps-mark_accepted :
      (env : AuthEnv) (id tenant user_id : ℕ) → Keeps P (mark_accepted env id tenant user_id)
  unfolding mark_accepted
  Keeps-mark_accepted env id tenant user_id =
      search (keeps_rules, Keeps-modify, h.keeps_invitations, Keeps-record_event) depth 12

  pub Keeps-create_tenant : (row : AuthTenant) → Keeps P (create_tenant row)
  unfolding create_tenant
  Keeps-create_tenant row = search (keeps_rules, Keeps-modify, h.keeps_tenants) depth 12

  pub Keeps-create_subscription : (row : Subscription) → Keeps P (create_subscription row)
  unfolding create_subscription
  Keeps-create_subscription row = search (keeps_rules, Keeps-modify, h.keeps_billing) depth 12

  pub Keeps-attempt_registration :
      (env : AuthEnv) (input : RegisterTenantOwnerInput) (slug : ℕ)
      → Keeps P (attempt_registration env input slug)
  unfolding attempt_registration registration_writes
  Keeps-attempt_registration env input slug =
      search
        (
          keeps_rules, Keeps-modify, h.keeps_tenants, h.keeps_settings, Keeps-create_tenant,
          Keeps-create_user, Keeps-create_subscription,
        )
        depth 20

  retry_keeps :
      (r : Result AuthError (AuthUser × AuthTenant) × AuthStore R)
      (again : AuthAction R (AuthUser × AuthTenant))
      → P r.1
      → Keeps P again
      → P (retry_on_slug r again).1
  retry_keeps (ok a, s) again p kept = p
  retry_keeps (err e, s) again p kept = ground (arith, kept.at s)

  pub Keeps-registration_attempts :
      (k : Primitives) (env : AuthEnv) (input : RegisterTenantOwnerInput) (base n slug : ℕ)
      → Keeps P (registration_attempts k env input base n slug)
  unfolding registration_attempts
  Keeps-registration_attempts k env input base zero slug = record { at = λ s p. p }
  Keeps-registration_attempts k env input base (suc n) slug = record {
    at = λ s p.
        retry_keeps (attempt_registration env input slug s) _
          ((Keeps-attempt_registration env input slug).at s p)
          (Keeps-registration_attempts k env input base n _);
  }
