-- ===== src/Billing/Entitlement.antt =====
-- backend/src/modules/billing/application/entitlement.service.ts, with the queries of
-- infrastructure/prisma-plan.repository.ts and infrastructure/prisma-subscription.repository.ts.
-- Instants are milliseconds; a log line is no state.
pub mod Limits
use kapis_receptionist.Scheduling.{day_ms}
use kapis_receptionist.Rows.{ActorType, system, Env, TenantStatus}
use kapis_receptionist.Prelude.{
  ℕ, ◌+◌, ◌*◌, Bool, false, Option, none, some, List, [], ◌∷◌, leb, ◌==◌, if◌then◌else◌, find,
  update_where,
}
use kapis_receptionist.Prelude.Action.{gets, throw_if, ◌>>=◌, modify, or_throw, Action, pure, ◌>>◌}

pub data EntitlementFeature : Type 0 where
  employee_limit appointment_limit ai_message_limit storage : EntitlementFeature

pub data SubscriptionStatus : Type 0 where
  trialing active past_due canceled incomplete unpaid : SubscriptionStatus

pub SubscriptionStatus-discrete : Discrete SubscriptionStatus
SubscriptionStatus-discrete = hlevel

-- A limit of `none` is no limit.
pub record Plan : Type 0 where
  pub id : ℕ
  pub stripe_price_id : ℕ
  pub monthly_price_cents : ℕ
  pub max_staff : Option ℕ
  pub max_messages_per_month : Option ℕ
  pub max_appointments_per_month : Option ℕ
  pub max_storage_mb : Option ℕ
  pub is_active : Bool
  pub trial_days : ℕ

pub record Subscription : Type 0 where
  pub id : ℕ
  pub tenant_id : ℕ
  pub plan_id : ℕ
  pub stripe_customer_id : Option ℕ
  pub stripe_subscription_id : Option ℕ
  pub status : SubscriptionStatus
  pub current_period_start : Option ℕ
  pub current_period_end : Option ℕ
  pub cancel_at_period_end : Bool
  pub canceled_at : Option ℕ
  pub messages_used_current_period : ℕ
  pub updated_by_type : ActorType
  pub updated_by_id : Option ℕ

pub record BillingStore : Type 0 where
  pub plans : List Plan
  pub subscriptions : List Subscription

pub data BillingError : Type 0 where
  no_default_plan_configured : BillingError
  plan_limit_exceeded : EntitlementFeature → ℕ → BillingError
  plan_not_found already_active_on_plan already_canceled no_stripe_subscription : BillingError
  stripe_unavailable unknown_tenant invalid_coupon invalid_signature write_failed : BillingError
  invalid_lifecycle_transition : TenantStatus → TenantStatus → BillingError
  record_not_found : BillingError  -- Prisma's error of an update that finds no row

pub record UsageSummary : Type 0 where
  pub subscription : Subscription
  pub plan : Plan

unfoldable pub resolve_limit : Plan → EntitlementFeature → Option ℕ
resolve_limit plan employee_limit = plan.max_staff
resolve_limit plan appointment_limit = plan.max_appointments_per_month
resolve_limit plan ai_message_limit = plan.max_messages_per_month
resolve_limit plan storage = plan.max_storage_mb

-- `PrismaPlanRepository.findById`
unfoldable pub find_plan : ℕ → List Plan → Option Plan
unfolding find
find_plan id plans = find (λ p. p.id == id) plans

-- Of two plans the cheaper; of equal prices the one that stands first.
abbrev cheaper_of : Plan → Option Plan → Plan
cheaper_of p none = p
cheaper_of p (some q) = if leb p.monthly_price_cents q.monthly_price_cents then p else q

-- `PrismaPlanRepository.findDefault`: the first of the active plans by price.
unfoldable pub find_default : List Plan → Option Plan
find_default [] = none
find_default (p ∷ ps) =
    let rest = find_default ps in if p.is_active then some (cheaper_of p rest) else rest

-- `PrismaSubscriptionRepository.findByTenantId`
unfoldable pub find_subscription : ℕ → List Subscription → Option Subscription
unfolding find
find_subscription tenant subscriptions = find (λ s. s.tenant_id == tenant) subscriptions

-- The row that the backfill creates: now, the new row's identifier, the tenant and the plan.
abbrev pub trial_of : ℕ → ℕ → ℕ → Plan → Subscription
trial_of now new_id tenant plan = record {
  id = new_id;
  tenant_id = tenant;
  plan_id = plan.id;
  stripe_customer_id = none;
  stripe_subscription_id = none;
  status = trialing;
  current_period_start = some now;
  current_period_end = some (now + plan.trial_days * day_ms);
  cancel_at_period_end = false;
  canceled_at = none;
  messages_used_current_period = 0;
  updated_by_type = system;
  updated_by_id = none;
}

-- `upsertTrialForTenant`: a row that is there already is left alone.
abbrev upserted : Option Subscription → Subscription → Action BillingStore BillingError Subscription
upserted (some s) fresh = pure s
upserted none fresh = do
  modify (λ b. record b { subscriptions = fresh ∷ b.subscriptions })
  pure fresh

unfoldable pub upsert_trial_for_tenant :
    Subscription → Action BillingStore BillingError Subscription
unfolding find_subscription ◌>>=◌
upsert_trial_for_tenant fresh = do
  found ← gets (λ b. find_subscription fresh.tenant_id b.subscriptions)
  upserted found fresh

-- `let subscription = ...; if (!subscription) { ... }`
abbrev or_backfill : Env → ℕ → Option Subscription → Action BillingStore BillingError Subscription
or_backfill env tenant (some s) = pure s
or_backfill env tenant none = do
  default_plan ← gets (λ b. find_default b.plans)
  plan ← or_throw default_plan no_default_plan_configured
  upsert_trial_for_tenant (trial_of env.now env.new_id tenant plan)

unfoldable pub get_or_create_for_tenant : Env → ℕ → Action BillingStore BillingError UsageSummary
unfolding find_default find_plan find_subscription upsert_trial_for_tenant ◌>>=◌
get_or_create_for_tenant env tenant = do
  found ← gets (λ b. find_subscription tenant b.subscriptions)
  subscription ← or_backfill env tenant found
  found_plan ← gets (λ b. find_plan subscription.plan_id b.plans)
  plan ← or_throw found_plan no_default_plan_configured
  pure (record { subscription = subscription; plan = plan })

abbrev pub throw_if_reached :
    EntitlementFeature → Option ℕ → ℕ → Action BillingStore BillingError (Unit {0})
throw_if_reached feature none usage = pure tt
throw_if_reached feature (some limit) usage =
    throw_if (leb limit usage) (plan_limit_exceeded feature limit)

unfoldable pub assert_within_limit :
    Env → ℕ → EntitlementFeature → ℕ → Action BillingStore BillingError (Unit {0})
unfolding get_or_create_for_tenant resolve_limit ◌>>=◌
assert_within_limit env tenant feature usage = do
  summary ← get_or_create_for_tenant env tenant
  throw_if_reached feature (resolve_limit summary.plan feature) usage

abbrev pub has_tenant : ℕ → Subscription → Bool
has_tenant tenant s = s.tenant_id == tenant

-- `updateByTenantId`, by the unique column `tenantId`
unfoldable pub update_by_tenant_id :
    ℕ → (Subscription → Subscription) → Action BillingStore BillingError Subscription
unfolding find_subscription update_where ◌>>=◌
update_by_tenant_id tenant change = do
  found ← gets (λ b. find_subscription tenant b.subscriptions)
  row ← or_throw found record_not_found
  modify (λ b. record b { subscriptions = update_where (has_tenant tenant) change b.subscriptions })
  pure (change row)

unfoldable pub increment_messages_used : ℕ → Action BillingStore BillingError ℕ
unfolding update_by_tenant_id ◌>>=◌
increment_messages_used tenant = do
  row ←
      update_by_tenant_id tenant
        (λ s. record s { messages_used_current_period = s.messages_used_current_period + 1 })
  pure row.messages_used_current_period

unfoldable pub check_and_increment_ai_message_usage :
    Env → ℕ → Action BillingStore BillingError (Unit {0})
unfolding get_or_create_for_tenant increment_messages_used ◌>>=◌
check_and_increment_ai_message_usage env tenant = do
  summary ← get_or_create_for_tenant env tenant
  throw_if_reached ai_message_limit summary.plan.max_messages_per_month
      summary.subscription.messages_used_current_period
  increment_messages_used tenant >> pure tt
