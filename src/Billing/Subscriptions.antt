-- ===== src/Billing/Subscriptions.antt =====
-- backend/src/modules/billing/application/subscriptions.service.ts. Stripe's answer to a call is
-- part of the environment.
use kapis_receptionist.Rows.{user, system}
use kapis_receptionist.Billing.Entitlement.{active}
use kapis_receptionist.Prelude.{
  ℕ, Bool, true, false, not, ◌||◌, Option, none, some, List, ◌==◌, if◌then◌else◌, is_some, get_or,
  is_key, find,
}
use kapis_receptionist.Billing.Stripe.{
  plan_changed, subscription_reactivated, subscription_canceled, call_stripe, BillingAction,
  past_due_word, active_word, canceled_word, StripeEnv, on_billing, synced_from_stripe,
  StripeStatus, write_audit, incomplete_word, incomplete_expired_word, unrecognized_word,
  unpaid_word, trialing_word,
}
use kapis_receptionist.Billing.Entitlement.{
  incomplete, plan_not_found, already_canceled, past_due, get_or_create_for_tenant,
  no_stripe_subscription, canceled, trialing, Plan, already_active_on_plan, update_by_tenant_id,
  find_plan, Subscription, SubscriptionStatus, unpaid, UsageSummary,
}
use kapis_receptionist.Prelude.Action.{pure, or_throw, throw_if, gets, ◌>>=◌, ◌>>◌}
use kapis_receptionist.Rows.{
  Env, TenantStatus, trial_status, active_status, past_due_status, cancelled_status,
  suspended_status,
}
use kapis_receptionist.Rbac.{AccessTokenPayload}
use kapis_receptionist.Billing.Lifecycle.{sync_status_from_billing}

pub record StripeSubscriptionSyncData : Type 0 where
  pub stripe_subscription_id : ℕ
  pub stripe_customer_id : ℕ
  pub stripe_status : StripeStatus
  pub stripe_price_id : Option ℕ
  pub current_period_start : Option ℕ
  pub current_period_end : Option ℕ
  pub cancel_at_period_end : Bool
  pub canceled_at : Option ℕ

-- `STRIPE_STATUS_MAP`
abbrev pub stripe_status_map : StripeStatus → Option SubscriptionStatus
stripe_status_map trialing_word = some trialing
stripe_status_map active_word = some active
stripe_status_map past_due_word = some past_due
stripe_status_map canceled_word = some canceled
stripe_status_map incomplete_word = some incomplete
stripe_status_map incomplete_expired_word = some canceled
stripe_status_map unpaid_word = some unpaid
stripe_status_map unrecognized_word = none

-- `SUBSCRIPTION_TO_TENANT_STATUS`
abbrev pub subscription_to_tenant_status : SubscriptionStatus → Option TenantStatus
subscription_to_tenant_status trialing = some trial_status
subscription_to_tenant_status active = some active_status
subscription_to_tenant_status past_due = some past_due_status
subscription_to_tenant_status canceled = some cancelled_status
subscription_to_tenant_status unpaid = some suspended_status
subscription_to_tenant_status incomplete = none

abbrev pub is_canceled : SubscriptionStatus → Bool
is_canceled canceled = true
is_canceled s = false

abbrev pub by_user : AccessTokenPayload → Subscription → Subscription
by_user actor s = record s { updated_by_type = user; updated_by_id = some actor.sub }

unfoldable pub find_by_stripe_customer : ℕ → List Subscription → Option Subscription
unfolding find
find_by_stripe_customer customer ss = find (λ s. is_key s.stripe_customer_id customer) ss

unfoldable pub find_by_stripe_price : ℕ → List Plan → Option Plan
unfolding find
find_by_stripe_price price plans = find (λ p. p.stripe_price_id == price) plans

unfoldable pub get_for_tenant : Env → ℕ → BillingAction UsageSummary
unfolding on_billing get_or_create_for_tenant
get_for_tenant env tenant = on_billing (get_or_create_for_tenant env tenant)

unfoldable pub update_subscription : ℕ → (Subscription → Subscription) → BillingAction Subscription
unfolding on_billing update_by_tenant_id
update_subscription tenant change = on_billing (update_by_tenant_id tenant change)

-- The `Env` of a call, for the entitlement service.
abbrev pub env_of : StripeEnv → Env
env_of env = record { now = env.now; new_id = env.new_id; token = λ e. 0 }

abbrev pub call_if_subscribed : StripeEnv → Option ℕ → BillingAction (Unit {0})
call_if_subscribed env none = pure tt
call_if_subscribed env (some id) = call_stripe env

abbrev pub is_usable_plan : Option Plan → Option Plan
is_usable_plan none = none
is_usable_plan (some p) = if p.is_active then some p else none

module _ (env : StripeEnv) (tenant : ℕ) where
  unfoldable pub change_plan : ℕ → AccessTokenPayload → BillingAction UsageSummary
  unfolding ◌>>=◌ get_for_tenant update_subscription call_stripe write_audit find_plan
  change_plan plan_id actor = do
    summary ← get_for_tenant (env_of env) tenant
    throw_if (summary.subscription.plan_id == plan_id) already_active_on_plan
    found ← gets (λ s. find_plan plan_id s.billing.plans)
    target ← or_throw (is_usable_plan found) plan_not_found
    call_if_subscribed env summary.subscription.stripe_subscription_id
    updated ← update_subscription tenant (λ s. by_user actor (record s { plan_id = plan_id }))
    write_audit (plan_changed tenant actor.sub summary.subscription.plan_id plan_id)
    pure (record { subscription = updated; plan = target })

  -- The two branches of `cancel`, by whether there is a Stripe subscription.
  abbrev pub cancel_known : AccessTokenPayload → Option ℕ → BillingAction Subscription
  cancel_known actor (some id) = do
    call_stripe env
    update_subscription tenant (λ s. by_user actor (record s { cancel_at_period_end = true }))
  cancel_known actor none = do
    updated ← update_subscription tenant (λ s.
        by_user actor
          (record s { status = canceled; cancel_at_period_end = true; canceled_at = some env.now }))
    sync_status_from_billing tenant cancelled_status
    pure updated

  unfoldable pub cancel : AccessTokenPayload → BillingAction Subscription
  unfolding ◌>>=◌ get_for_tenant update_subscription call_stripe write_audit
      sync_status_from_billing
  cancel actor = do
    summary ← get_for_tenant (env_of env) tenant
    throw_if (summary.subscription.cancel_at_period_end || is_canceled summary.subscription.status)
        already_canceled
    updated ← cancel_known actor summary.subscription.stripe_subscription_id
    write_audit (
        subscription_canceled tenant actor.sub
          (is_some summary.subscription.stripe_subscription_id))
    pure updated

  unfoldable pub reactivate : AccessTokenPayload → BillingAction Subscription
  unfolding ◌>>=◌ get_for_tenant update_subscription call_stripe write_audit
  reactivate actor = do
    summary ← get_for_tenant (env_of env) tenant
    throw_if
        (not summary.subscription.cancel_at_period_end
          || not (is_some summary.subscription.stripe_subscription_id))
        no_stripe_subscription
    call_stripe env
    updated ←
        update_subscription tenant
          (λ s. by_user actor (record s { cancel_at_period_end = false; canceled_at = none }))
    write_audit (subscription_reactivated tenant actor.sub)
    pure updated

abbrev pub plan_id_or : Option Plan → ℕ → ℕ
plan_id_or none plan_id = plan_id
plan_id_or (some p) plan_id = p.id

-- The plan of the event's price, or the one that the subscription has.
abbrev pub synced_plan : Option ℕ → ℕ → List Plan → ℕ
synced_plan none plan_id plans = plan_id
synced_plan (some price) plan_id plans = plan_id_or (find_by_stripe_price price plans) plan_id

abbrev pub synced_row :
    StripeSubscriptionSyncData → ℕ → SubscriptionStatus → Subscription → Subscription
synced_row sync plan_id status s = record s {
  plan_id = plan_id;
  stripe_subscription_id = some sync.stripe_subscription_id;
  status = status;
  current_period_start = sync.current_period_start;
  current_period_end = sync.current_period_end;
  cancel_at_period_end = sync.cancel_at_period_end;
  canceled_at = sync.canceled_at;
  updated_by_type = system;
  updated_by_id = none;
}

abbrev pub tenant_status_of : Option SubscriptionStatus → Option TenantStatus
tenant_status_of none = none
tenant_status_of (some status) = subscription_to_tenant_status status

abbrev pub sync_tenant : ℕ → Option TenantStatus → BillingAction (Unit {0})
sync_tenant tenant none = pure tt
sync_tenant tenant (some status) = sync_status_from_billing tenant status >> pure tt

abbrev pub apply_to : StripeSubscriptionSyncData → Option Subscription → BillingAction (Unit {0})
apply_to sync none = pure tt
apply_to sync (some existing) = do
  plan_id ← gets (λ s. synced_plan sync.stripe_price_id existing.plan_id s.billing.plans)
  update_subscription existing.tenant_id
      (synced_row sync plan_id (get_or (stripe_status_map sync.stripe_status) existing.status))
  write_audit (synced_from_stripe existing.tenant_id sync.stripe_status)
  sync_tenant existing.tenant_id (tenant_status_of (stripe_status_map sync.stripe_status))

unfoldable pub apply_stripe_subscription_event :
    StripeSubscriptionSyncData → BillingAction (Unit {0})
unfolding ◌>>=◌ find_by_stripe_customer find_by_stripe_price update_subscription write_audit
    sync_status_from_billing
apply_stripe_subscription_event sync = do
  existing ← gets (λ s. find_by_stripe_customer sync.stripe_customer_id s.billing.subscriptions)
  apply_to sync existing
