-- ===== src/Auth/Invitations.antt =====
-- backend/src/modules/tenants/application/tenant-invitation.service.ts and
-- infrastructure/prisma-tenant-invitation.repository.ts.
use kapis_receptionist.Prelude.{
  ℕ, ◌+◌, ◌*◌, Bool, not, ◌&&◌, ◌||◌, Option, none, some, List, [], ◌∷◌, ltb, leb, ◌==◌,
  if◌then◌else◌, is_some, any, keep, find, update_where,
}
use kapis_receptionist.Auth.Tables.{
  unique_violation, InvitationEvent, invitation_already_pending, invitation_created,
  invitation_hash_column, AuthStore, AuthAction, AuthEnv, invitation_revoked, TenantInvitation,
  role_not_seeded, invitation_mail, invitation_accepted, resource_not_found,
  invalid_or_expired_invitation, row_not_found, Primitives,
}
use kapis_receptionist.Rbac.{AccessTokenPayload, role_rank, RoleName, manager, staff}
use kapis_receptionist.Prelude.Action.{pure, gets, modify, throw_if, or_throw, ◌>>=◌, ◌>>◌}
use kapis_receptionist.Auth.Sessions.{hash_opaque_token}
use kapis_receptionist.Auth.Users.{send_email}

abbrev pub normalize_email : Primitives → ℕ → ℕ
normalize_email k email = k.to_lower_case (k.trim email)

-- Each role has a rank of its own.
abbrev pub same_role : RoleName → RoleName → Bool
same_role a b = role_rank a == role_rank b

-- `acceptedAt: null, revokedAt: null`
abbrev pub is_pending_invitation : TenantInvitation → Bool
is_pending_invitation i = not (is_some i.accepted_at) && not (is_some i.revoked_at)

abbrev pub is_pending_for : ℕ → ℕ → TenantInvitation → Bool
is_pending_for tenant email i = i.tenant_id == tenant && i.email == email && is_pending_invitation i

abbrev pub is_invitation_of : ℕ → ℕ → TenantInvitation → Bool
is_invitation_of tenant id i = i.id == id && i.tenant_id == tenant

abbrev pub has_invitation_hash : ℕ → TenantInvitation → Bool
has_invitation_hash h i = i.token_hash == h

-- Of the pending rows, the newest comes first.
abbrev pub insert_newest : TenantInvitation → List TenantInvitation → List TenantInvitation
insert_newest i [] = i ∷ []
insert_newest i (j ∷ js) =
    if leb j.created_at i.created_at then i ∷ j ∷ js else j ∷ insert_newest i js

abbrev pub newest_first : List TenantInvitation → List TenantInvitation
newest_first [] = []
newest_first (i ∷ is) = insert_newest i (newest_first is)

-- The roles that an invitation can give.
pub data InvitedRole : Type 0 where
  invited_manager invited_staff : InvitedRole

abbrev pub role_name : InvitedRole → RoleName
role_name invited_manager = manager
role_name invited_staff = staff

pub record CreateInvitationInput : Type 0 where
  pub email : ℕ
  pub role : InvitedRole

pub record ConsumedInvitation : Type 0 where
  pub invitation_id : ℕ
  pub tenant_id : ℕ
  pub email : ℕ
  pub role : RoleName

abbrev pub invitation_row :
    Primitives → AuthEnv → ℕ → AccessTokenPayload → ℕ → RoleName → TenantInvitation
invitation_row k env tenant actor email role = record {
  id = env.new_id;
  tenant_id = tenant;
  email = email;
  role = role;
  invited_by_user_id = actor.sub;
  token_hash = hash_opaque_token k env.opaque_token;
  expires_at = env.now + k.invitation_expires_in_seconds * 1000;
  accepted_at = none;
  revoked_at = none;
  created_at = env.now;
}

abbrev pub is_expired_at : ℕ → ℕ → Bool
is_expired_at now expires_at = ltb expires_at now

-- The guard of `validateAndConsume`.
abbrev pub is_invalid_invitation : ℕ → TenantInvitation → Bool
is_invalid_invitation now i =
    is_some i.accepted_at || is_some i.revoked_at || is_expired_at now i.expires_at

module _ {R : Type 0} where
  unfoldable pub find_pending : ℕ → ℕ → AuthStore R → Option TenantInvitation
  unfolding find
  find_pending tenant email s = find (is_pending_for tenant email) s.invitations

  unfoldable pub find_invitation : ℕ → AuthStore R → Option TenantInvitation
  unfolding find
  find_invitation h s = find (has_invitation_hash h) s.invitations

  unfoldable pub record_event : InvitationEvent → AuthAction R (Unit {0})
  unfolding ◌>>=◌
  record_event e = modify (λ s. record s { audit = e ∷ s.audit })

  -- `create` of the repository; the column `tokenHash` is unique.
  unfoldable pub create_invitation_row : TenantInvitation → AuthAction R TenantInvitation
  unfolding ◌>>=◌ find_invitation
  create_invitation_row row = do
    clash ← gets (find_invitation row.token_hash)
    throw_if (is_some clash) (unique_violation invitation_hash_column)
    modify (λ s. record s { invitations = row ∷ s.invitations })
    pure row

  unfoldable pub create_invitation :
      Primitives
      → AuthEnv
      → ℕ
      → AccessTokenPayload
      → CreateInvitationInput
      → AuthAction R TenantInvitation
  unfolding ◌>>=◌ find_pending any create_invitation_row send_email record_event hash_opaque_token
  create_invitation k env tenant actor input = do
    existing ← gets (find_pending tenant (normalize_email k input.email))
    throw_if (is_some existing) invitation_already_pending
    seeded ← gets (λ s. any (same_role (role_name input.role)) s.seeded_roles)
    throw_if (not seeded) role_not_seeded
    invitation ←
        create_invitation_row
          (invitation_row k env tenant actor (normalize_email k input.email) (role_name input.role))
    send_email env (invitation_mail invitation.email (role_name input.role) env.opaque_token)
    record_event (invitation_created tenant actor.sub invitation.id)
    pure invitation

  unfoldable pub list_pending : ℕ → AuthStore R → List TenantInvitation
  unfolding keep
  list_pending tenant s =
      newest_first (keep (λ i. i.tenant_id == tenant && is_pending_invitation i) s.invitations)

  -- `updateForTenant`: no matching row throws.
  unfoldable pub revoke_invitation_row : ℕ → ℕ → ℕ → AuthAction R (Unit {0})
  unfolding ◌>>=◌ find update_where
  revoke_invitation_row now tenant id = do
    found ← gets (λ s. find (is_invitation_of tenant id) s.invitations)
    or_throw found resource_not_found
    modify (λ s. record s {
      invitations =
          update_where (is_invitation_of tenant id) (λ i. record i { revoked_at = some now })
            s.invitations;
    })

  abbrev pub revoke_if_pending :
      AuthEnv → ℕ → ℕ → AccessTokenPayload → TenantInvitation → AuthAction R (Unit {0})
  revoke_if_pending env tenant id actor invitation =
      if is_pending_invitation invitation
      then revoke_invitation_row env.now tenant id
        >> record_event (invitation_revoked tenant actor.sub id)
      else pure tt

  -- `revoke`: an invitation that is accepted or revoked already is left alone.
  unfoldable pub revoke_invitation : AuthEnv → ℕ → ℕ → AccessTokenPayload → AuthAction R (Unit {0})
  unfolding ◌>>=◌ find revoke_invitation_row record_event
  revoke_invitation env tenant id actor = do
    found ← gets (λ s. find (is_invitation_of tenant id) s.invitations)
    invitation ← or_throw found resource_not_found
    revoke_if_pending env tenant id actor invitation

  unfoldable pub validate_and_consume : Primitives → AuthEnv → ℕ → AuthAction R ConsumedInvitation
  unfolding ◌>>=◌ find_invitation hash_opaque_token
  validate_and_consume k env raw = do
    found ← gets (find_invitation (hash_opaque_token k raw))
    invitation ← or_throw found invalid_or_expired_invitation
    throw_if (is_invalid_invitation env.now invitation) invalid_or_expired_invitation
    pure (record {
      invitation_id = invitation.id;
      tenant_id = invitation.tenant_id;
      email = invitation.email;
      role = invitation.role;
    })

  unfoldable pub mark_accepted : AuthEnv → ℕ → ℕ → ℕ → AuthAction R (Unit {0})
  unfolding ◌>>=◌ find update_where record_event
  mark_accepted env id tenant user_id = do
    found ← gets (λ s. find (λ i. i.id == id) s.invitations)
    or_throw found row_not_found
    modify (λ s. record s {
      invitations =
          update_where (λ i. i.id == id) (λ i. record i { accepted_at = some env.now })
            s.invitations;
    })
    record_event (invitation_accepted tenant user_id id)
