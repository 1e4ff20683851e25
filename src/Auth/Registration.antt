-- ===== src/Auth/Registration.antt =====
-- backend/src/modules/auth/infrastructure/prisma-registration.repository.ts.
use kapis_receptionist.Prelude.{
  ℕ, zero, suc, ◌+◌, ◌*◌, Bool, true, false, not, none, some, [], ◌∷◌, ◌==◌, is_some, get_or, any,
  find, update_where,
}
use kapis_receptionist.Prelude.Action.{
  err, throw, pure, Result, gets, ok, modify, transaction, throw_if, or_throw, ◌>>=◌, ◌>>◌,
}
use kapis_receptionist.Billing.Entitlement.{Subscription, find_default, trial_of, find_subscription}
use kapis_receptionist.Auth.Invitations.{same_role, ConsumedInvitation}
use kapis_receptionist.Auth.Tables.{
  AuthUser, unique_violation, slug_column, AuthStore, AuthAction, AuthEnv, AuthError,
  role_not_seeded, no_unique_slug, AuthTenant, tenant_column, Primitives, no_active_plan,
}
use kapis_receptionist.Rbac.{owner, RoleName}
use kapis_receptionist.Scheduling.{day_ms}
use kapis_receptionist.Auth.Users.{create_user}
use kapis_receptionist.Rows.{trial_status}

abbrev pub has_slug : ℕ → AuthTenant → Bool
has_slug slug t = t.slug == slug

pub record RegisterTenantOwnerInput : Type 0 where
  pub email : ℕ
  pub password_hash : ℕ
  pub first_name : ℕ
  pub last_name : ℕ
  pub tenant_name : ℕ
  pub timezone : ℕ

abbrev pub new_tenant : AuthEnv → RegisterTenantOwnerInput → ℕ → AuthTenant
new_tenant env input slug = record {
  id = env.new_id;
  name = input.tenant_name;
  slug = slug;
  status = trial_status;
  timezone = input.timezone;
  trial_ends_at = none;
  created_at = env.now;
}

abbrev pub new_user : AuthEnv → ℕ → ℕ → ℕ → ℕ → ℕ → Bool → RoleName → AuthUser
new_user env tenant email hash first_name last_name verified role = record {
  id = env.new_id;
  tenant_id = some tenant;
  email = email;
  password_hash = some hash;
  first_name = first_name;
  last_name = last_name;
  is_active = true;
  is_email_verified = verified;
  last_login_at = none;
  created_at = env.now;
  roles = role ∷ [];
}

abbrev pub is_tenant : ℕ → AuthTenant → Bool
is_tenant id t = t.id == id

abbrev pub max_slug_attempts : ℕ
max_slug_attempts = 5

abbrev pub base_slug : Primitives → ℕ → ℕ
base_slug k name = get_or (k.slugify name) k.salon_slug

module _ {R : Type 0} where
  -- `tx.tenant.create`; the column `slug` is unique.
  unfoldable pub create_tenant : AuthTenant → AuthAction R AuthTenant
  unfolding ◌>>=◌ find
  create_tenant row = do
    clash ← gets (λ s. find (has_slug row.slug) s.tenants)
    throw_if (is_some clash) (unique_violation slug_column)
    modify (λ s. record s { tenants = row ∷ s.tenants })
    pure row

  -- `tx.subscription.create`; the column `tenantId` is unique.
  unfoldable pub create_subscription : Subscription → AuthAction R (Unit {0})
  unfolding ◌>>=◌ find_subscription
  create_subscription row = do
    clash ← gets (λ s. find_subscription row.tenant_id s.billing.subscriptions)
    throw_if (is_some clash) (unique_violation tenant_column)
    modify (λ s. record s {
      billing = record (s.billing) { subscriptions = row ∷ s.billing.subscriptions };
    })

  abbrev pub set_trial_end : ℕ → ℕ → AuthStore R → AuthStore R
  set_trial_end id instant s = record s {
    tenants =
        update_where (is_tenant id) (λ t. record t { trial_ends_at = some instant }) s.tenants;
  }

  -- The body of the transaction.
  unfoldable pub registration_writes :
      AuthEnv → RegisterTenantOwnerInput → ℕ → AuthAction R (AuthUser × AuthTenant)
  unfolding ◌>>=◌ any create_tenant create_user create_subscription find_default update_where
  registration_writes env input slug = do
    seeded ← gets (λ s. any (same_role owner) s.seeded_roles)
    throw_if (not seeded) role_not_seeded
    tenant ← create_tenant (new_tenant env input slug)
    user ← create_user (
        new_user env tenant.id input.email input.password_hash input.first_name input.last_name
          false owner)
    modify (λ s. record s { tenant_settings = tenant.id ∷ s.tenant_settings })
    default_plan ← gets (λ s. find_default s.billing.plans)
    plan ← or_throw default_plan no_active_plan
    create_subscription (trial_of env.now env.new_id tenant.id plan)
    modify (set_trial_end tenant.id (env.now + plan.trial_days * day_ms))
    pure (user, record tenant { trial_ends_at = some (env.now + plan.trial_days * day_ms) })

  unfoldable pub attempt_registration :
      AuthEnv → RegisterTenantOwnerInput → ℕ → AuthAction R (AuthUser × AuthTenant)
  unfolding transaction registration_writes
  attempt_registration env input slug = transaction (registration_writes env input slug)

  -- What the loop does with the outcome of an attempt: only a clash of slugs tries again.
  abbrev pub retry_on_slug :
      Result AuthError (AuthUser × AuthTenant) × AuthStore R
      → AuthAction R (AuthUser × AuthTenant)
      → Result AuthError (AuthUser × AuthTenant) × AuthStore R
  retry_on_slug (ok a, s) again = (ok a, s)
  retry_on_slug (err (unique_violation slug_column), s) again = again s
  retry_on_slug (err e, s) again = (err e, s)

  -- The loop, with the number of attempts that are left and the slug of the next one.
  unfoldable pub registration_attempts :
      Primitives
      → AuthEnv
      → RegisterTenantOwnerInput
      → ℕ
      → ℕ
      → ℕ
      → AuthAction R (AuthUser × AuthTenant)
  unfolding throw attempt_registration
  registration_attempts k env input base zero slug s = throw no_unique_slug s
  registration_attempts k env input base (suc n) slug s =
      retry_on_slug (attempt_registration env input slug s)
        (registration_attempts k env input base n (k.with_random_suffix base (env.slug_suffix n)))

  unfoldable pub register_tenant_owner :
      Primitives → AuthEnv → RegisterTenantOwnerInput → AuthAction R (AuthUser × AuthTenant)
  unfolding registration_attempts
  register_tenant_owner k env input =
      registration_attempts k env input (base_slug k input.tenant_name) max_slug_attempts
        (base_slug k input.tenant_name)

  unfoldable pub register_invited_user :
      AuthEnv → ConsumedInvitation → ℕ → ℕ → ℕ → AuthAction R AuthUser
  unfolding create_user
  register_invited_user env consumed hash first_name last_name =
      create_user (
        new_user env consumed.tenant_id consumed.email hash first_name last_name true consumed.role)
