-- ===== src/Auth/InvitationLink.antt =====
-- The link of an invitation: backend/src/modules/tenants/application/tenant-invitation.service.ts.
use kapis_receptionist.Prelude.{ℕ, ◌+◌, ◌*◌, ◌≤◌, ◌≡◌, ◌∷◌, arith, find, refl, true, false, ◌==◌}
use kapis_receptionist.Auth.Invitations.{
  normalize_email, invitation_row, validate_and_consume, create_invitation_row, record_event,
  find_invitation, create_invitation, CreateInvitationInput, is_expired_at, role_name,
}
use kapis_receptionist.Auth.Tables.{AuthStore, AuthEnv, Primitives, TenantInvitation}
use kapis_receptionist.Rbac.{AccessTokenPayload}
use kapis_receptionist.Auth.Users.{send_email}
use kapis_receptionist.Prelude.Action.{ok}
use kapis_receptionist.Auth.Sessions.{hash_opaque_token}

module _ {R : Type 0} (k : Primitives) where
  create_invitation-stored :
      (env : AuthEnv) (tenant : ℕ) (actor : AccessTokenPayload) (input : CreateInvitationInput)
      (s : AuthStore R) {i : TenantInvitation} {t : AuthStore R}
      → create_invitation k env tenant actor input s ≡ (ok i, t)
      → t.invitations
        ≡ invitation_row k env tenant actor (normalize_email k input.email) (role_name input.role)
          ∷ s.invitations
  unfolding create_invitation create_invitation_row send_email record_event
  create_invitation-stored env tenant actor input s {i} {t} e = ground arith

  -- In the state that the creation of an invitation left, its link is good at every time up to the one
  -- at which the invitation expires: it names the tenant, the normalized address and the role of the
  -- invitation, and checking it changes nothing.
  pub invitation_link_valid :
      (env : AuthEnv) (tenant : ℕ) (actor : AccessTokenPayload) (input : CreateInvitationInput)
      (s : AuthStore R) {i : TenantInvitation} {t : AuthStore R}
      → create_invitation k env tenant actor input s ≡ (ok i, t)
      → (later : AuthEnv) → later.now ≤ env.now + k.invitation_expires_in_seconds * 1000
      → validate_and_consume k later env.opaque_token t ≡ (
        ok (record {
          invitation_id = env.new_id;
          tenant_id = tenant;
          email = normalize_email k input.email;
          role = role_name input.role;
        }),
        t,
      )
  unfolding validate_and_consume find_invitation find
  invitation_link_valid env tenant actor input s e later early =
      let stored_row = create_invitation-stored env tenant actor input s e in
      let h = hash_opaque_token k env.opaque_token in
      let same : (h == h) ≡ true = ground arith in
      let fresh : is_expired_at later.now (env.now + k.invitation_expires_in_seconds * 1000)
          ≡ false =
        ground arith in
      rw (stored_row, same, fresh) refl
