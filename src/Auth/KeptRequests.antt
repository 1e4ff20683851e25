-- ===== src/Auth/KeptRequests.antt =====
-- Whole requests of the auth service and the tables of tokens.
use kapis_receptionist.Auth.Requests.{
  serve_all, Stable, login_request, accept_request, logout_request, resend_request, invite_request,
  AuthRequest, register_request, refresh_request, revoke_invitation_request, reset_request,
  verify_request, serve, forgot_request,
}
use kapis_receptionist.Prelude.Action.{Keeps, Keeps-modify, keeps_rules, Keeps-pure}
use kapis_receptionist.Prelude.{ℕ, Option, none, some, List, [], ◌∷◌}
use kapis_receptionist.Auth.Accounts.{
  reset_password, resend_verification, LoginInput, issue_and_send_verification_email, reset_for,
  RegisterInput, register, refresh, verify_email, accept_invitation, forgot_password, AcceptInput,
  issue_and_send_password_reset_email, resend_to, logout,
}
use kapis_receptionist.Auth.Tables.{Primitives, AuthUser, AuthEnv, AuthStore, RefreshTokenRecord}
use kapis_receptionist.Auth.Login.{check_password, login, refuse_credentials}
use kapis_receptionist.Auth.Kept.{
  Keeps-registration_attempts, Keeps-update_last_login_at, Keeps-mark_accepted,
  Keeps-create_invitation_row, Keeps-send_email, Keeps-update_password, Keeps-record_event,
  Keeps-create_user, Keeps-revoke_invitation_row, Keeps-mark_email_verified,
}
use kapis_receptionist.Auth.Sessions.{
  issue_session, revoke_all_for_user, rotate, revoke_found, revoke_token, RequestMeta,
}
use kapis_receptionist.Auth.Invitations.{
  validate_and_consume, CreateInvitationInput, create_invitation, revoke_invitation,
}
use kapis_receptionist.Rbac.{AccessTokenPayload}
use kapis_receptionist.Auth.Counters.{Counters}
use kapis_receptionist.Auth.Registration.{register_invited_user, register_tenant_owner}

module _ {R : Type 0} {P : AuthStore R → Type 0} (h : Stable P) (k : Primitives)
    (env : AuthEnv) where
  Keeps-issue_session :
      (user_id : ℕ) (info : RequestMeta) → Keeps P (issue_session k env user_id info)
  unfolding issue_session
  Keeps-issue_session user_id info = search (keeps_rules, h.session_created) depth 12

  Keeps-rotate : (raw : ℕ) (info : RequestMeta) → Keeps P (rotate k env raw info)
  unfolding rotate
  Keeps-rotate raw info =
      search (keeps_rules, h.session_revoked, h.all_revoked, Keeps-issue_session) depth 20

  Keeps-verification_email :
      (user : AuthUser) → Keeps P (issue_and_send_verification_email k env user)
  unfolding issue_and_send_verification_email
  Keeps-verification_email user =
      search (keeps_rules, h.verifications_invalidated, h.verification_created, Keeps-send_email h)
        depth 12

  Keeps-reset_email : (user : AuthUser) → Keeps P (issue_and_send_password_reset_email k env user)
  unfolding issue_and_send_password_reset_email
  Keeps-reset_email user =
      search (keeps_rules, h.resets_invalidated, h.reset_created, Keeps-send_email h) depth 12

  Keeps-register : (input : RegisterInput) → Keeps P (register k env input)
  unfolding register register_tenant_owner
  Keeps-register input =
      search (keeps_rules, Keeps-registration_attempts h, Keeps-verification_email) depth 12

  Keeps-refresh : (raw : ℕ) (info : RequestMeta) → Keeps P (refresh k env raw info)
  unfolding refresh
  Keeps-refresh raw info = search (keeps_rules, Keeps-rotate) depth 12

  Keeps-revoke_found : (o : Option RefreshTokenRecord) → Keeps P (revoke_found env o)
  Keeps-revoke_found none = Keeps-pure tt
  Keeps-revoke_found (some row) = search (keeps_rules, h.session_revoked) depth 12

  Keeps-logout : (raw : ℕ) → Keeps P (logout k env raw)
  unfolding logout revoke_token
  Keeps-logout raw = search (keeps_rules, Keeps-revoke_found) depth 12

  Keeps-accept_invitation :
      (input : AcceptInput) (info : RequestMeta) → Keeps P (accept_invitation k env input info)
  unfolding accept_invitation validate_and_consume register_invited_user
  Keeps-accept_invitation input info =
      search (keeps_rules, Keeps-create_user h, Keeps-mark_accepted h, Keeps-issue_session) depth 20

  Keeps-resend_to : (o : Option AuthUser) → Keeps P (resend_to k env o)
  Keeps-resend_to none = Keeps-pure tt
  Keeps-resend_to (some user) = search (keeps_rules, Keeps-verification_email) depth 12

  Keeps-resend_verification : (email : ℕ) → Keeps P (resend_verification k env email)
  unfolding resend_verification
  Keeps-resend_verification email = search (keeps_rules, Keeps-resend_to) depth 12

  Keeps-verify_email : (raw : ℕ) → Keeps P (verify_email k env raw)
  unfolding verify_email
  Keeps-verify_email raw =
      search (keeps_rules, h.verification_marked, Keeps-mark_email_verified h) depth 20

  Keeps-reset_for : (o : Option AuthUser) → Keeps P (reset_for k env o)
  Keeps-reset_for none = Keeps-pure tt
  Keeps-reset_for (some user) = Keeps-reset_email user

  Keeps-forgot_password : (email : ℕ) → Keeps P (forgot_password k env email)
  unfolding forgot_password
  Keeps-forgot_password email = search (keeps_rules, Keeps-reset_for) depth 12

  Keeps-reset_password : (raw password : ℕ) → Keeps P (reset_password k env raw password)
  unfolding reset_password revoke_all_for_user
  Keeps-reset_password raw password =
      search (keeps_rules, Keeps-update_password h, h.reset_marked, h.all_revoked) depth 20

  Keeps-create_invitation :
      (tenant : ℕ) (actor : AccessTokenPayload) (input : CreateInvitationInput)
      → Keeps P (create_invitation k env tenant actor input)
  unfolding create_invitation
  Keeps-create_invitation tenant actor input =
      search (keeps_rules, Keeps-create_invitation_row h, Keeps-send_email h, Keeps-record_event h)
        depth 20

  Keeps-revoke_invitation :
      (tenant id : ℕ) (actor : AccessTokenPayload) → Keeps P (revoke_invitation env tenant id actor)
  unfolding revoke_invitation
  Keeps-revoke_invitation tenant id actor =
      search (keeps_rules, Keeps-revoke_invitation_row h, Keeps-record_event h) depth 20

module _ {R : Type 0} ⦃c : Counters R⦄ {P : AuthStore R → Type 0} (h : Stable P)
    (k : Primitives) where
  Keeps-refuse_credentials :
      {A : Type 0} (env : AuthEnv) (email : ℕ) → Keeps P (refuse_credentials k env {A = A} email)
  unfolding refuse_credentials
  Keeps-refuse_credentials env email = search (keeps_rules, Keeps-modify, h.keeps_redis) depth 12

  Keeps-check_password :
      (env : AuthEnv) (email password : ℕ) (o : Option (AuthUser × ℕ))
      → Keeps P (check_password k env email password o)
  Keeps-check_password env email password none = Keeps-refuse_credentials env email
  Keeps-check_password env email password (some (user, hash)) =
      search (keeps_rules, Keeps-refuse_credentials) depth 12

  Keeps-login :
      (env : AuthEnv) (input : LoginInput) (info : RequestMeta) → Keeps P (login k env input info)
  unfolding login
  Keeps-login env input info =
      search
        (
          keeps_rules,
          Keeps-modify,
          h.keeps_redis,
          Keeps-check_password,
          Keeps-update_last_login_at h,
          Keeps-issue_session h k env,
        )
        depth 20

  serve_keeps : (env : AuthEnv) (q : AuthRequest) (s : AuthStore R) → P s → P (serve k env q s)
  unfolding serve
  serve_keeps env (register_request input) s p = (Keeps-register h k env input).at s p
  serve_keeps env (login_request input info) s p = (Keeps-login env input info).at s p
  serve_keeps env (refresh_request raw info) s p = (Keeps-refresh h k env raw info).at s p
  serve_keeps env (logout_request raw) s p = (Keeps-logout h k env raw).at s p
  serve_keeps env (accept_request input info) s p =
      (Keeps-accept_invitation h k env input info).at s p
  serve_keeps env (resend_request email) s p = (Keeps-resend_verification h k env email).at s p
  serve_keeps env (verify_request raw) s p = (Keeps-verify_email h k env raw).at s p
  serve_keeps env (forgot_request email) s p = (Keeps-forgot_password h k env email).at s p
  serve_keeps env (reset_request raw password) s p =
      (Keeps-reset_password h k env raw password).at s p
  serve_keeps env (invite_request tenant actor input) s p =
      (Keeps-create_invitation h k env tenant actor input).at s p
  serve_keeps env (revoke_invitation_request tenant id actor) s p =
      (Keeps-revoke_invitation h k env tenant id actor).at s p

  pub serve_all_keeps :
      (qs : List (AuthEnv × AuthRequest)) (s : AuthStore R) → P s → P (serve_all k qs s)
  unfolding serve_all
  serve_all_keeps [] s p = p
  serve_all_keeps ((env, q) ∷ qs) s p = serve_all_keeps qs _ (serve_keeps env q s p)
