-- ===== src/Billing/Entitlement/Limits.antt =====
-- Usage against the limits of a plan:
-- backend/src/modules/billing/application/entitlement.service.ts.
use kapis_receptionist.Prelude.{
  ℕ, ◌≡◌, none, some, List, [], ◌∷◌, arith, ◌<◌, Option, ◌+◌, ◌≤◌, refl, sym, subst, find,
  update_where, ap, ◌∙◌,
}
use kapis_receptionist.Billing.Entitlement.{
  find_plan, UsageSummary, no_default_plan_configured, get_or_create_for_tenant, find_subscription,
  BillingStore, find_default, Subscription, throw_if_reached, assert_within_limit, Plan,
  resolve_limit, EntitlementFeature, check_and_increment_ai_message_usage, has_tenant,
  increment_messages_used, ai_message_limit,
}
use kapis_receptionist.Prelude.Action.{ok, err, pure, ◌>>◌, ◌>>=◌, >>=-returned}
use kapis_receptionist.Rows.{Env}

-- With no subscription and no active plan the gate throws, and writes nothing.
pub get_or_create_for_tenant_no_plan :
    (env : Env) (tenant : ℕ) (b : BillingStore)
    → find_subscription tenant b.subscriptions ≡ none
    → find_default b.plans ≡ none
    → get_or_create_for_tenant env tenant b ≡ (err no_default_plan_configured, b)
unfolding get_or_create_for_tenant
get_or_create_for_tenant_no_plan env tenant b f p = ground arith

-- A call that returns leaves the tenant with the subscription that it returns.
pub get_or_create_for_tenant-stored :
    (env : Env) (tenant : ℕ) (b : BillingStore) {b' : BillingStore} {u : UsageSummary}
    → get_or_create_for_tenant env tenant b ≡ (ok u, b')
    → (find_subscription tenant b'.subscriptions ≡ some u.subscription)
      × (find_plan u.subscription.plan_id b'.plans ≡ some u.plan)
      × (b'.plans ≡ b.plans)
unfolding get_or_create_for_tenant
get_or_create_for_tenant-stored env tenant b {b'} {u} e = ground arith

-- The gate lets a request pass exactly when its usage is below the limit of the tenant's plan, or
-- the plan has none.
abbrev pub IsBelow : Option ℕ → ℕ → Type 0
IsBelow none usage = Unit {0}
IsBelow (some limit) usage = usage < limit

throw_if_reached-IsBelow :
    (feature : EntitlementFeature) (limit : Option ℕ) (usage : ℕ) (b : BillingStore)
    {b' : BillingStore}
    → throw_if_reached feature limit usage b ≡ (ok tt, b')
    → IsBelow limit usage × (b' ≡ b)
unfolding ◌>>=◌
throw_if_reached-IsBelow feature none usage b {b'} e = (tt, ground arith)
throw_if_reached-IsBelow feature (some limit) usage b {b'} e = ground arith

-- A request that passes the gate has usage below the limit of the tenant's stored plan.
pub assert_within_limit-IsBelow :
    (env : Env) (tenant : ℕ) (feature : EntitlementFeature) (usage : ℕ) (b : BillingStore)
    {b' : BillingStore}
    → assert_within_limit env tenant feature usage b ≡ (ok tt, b')
    → (s : Subscription) × (plan : Plan) × (find_subscription tenant b'.subscriptions ≡ some s)
      × (find_plan s.plan_id b'.plans ≡ some plan)
      × IsBelow (resolve_limit plan feature) usage
unfolding assert_within_limit
assert_within_limit-IsBelow env tenant feature usage b e =
    let (u, m, got, passed) = >>=-returned (get_or_create_for_tenant env tenant) _ b e in
    let (there, planned, same) = get_or_create_for_tenant-stored env tenant b got in
    let (below, kept) = throw_if_reached-IsBelow feature _ usage m passed in
    (
      u.subscription,
      u.plan,
      subst (λ c. find_subscription tenant c.subscriptions ≡ some u.subscription) (sym kept) there,
      subst (λ c. find_plan u.subscription.plan_id c.plans ≡ some u.plan) (sym kept) planned,
      below,
    )

-- The same, where the usage has just been counted.
abbrev pub IsWithin : Option ℕ → ℕ → Type 0
IsWithin none usage = Unit {0}
IsWithin (some limit) usage = usage ≤ limit

IsBelow-suc : (limit : Option ℕ) (usage : ℕ) → IsBelow limit usage → IsWithin limit (usage + 1)
IsBelow-suc none usage h = tt
IsBelow-suc (some limit) usage h = omega arith

abbrev counted : Subscription → Subscription
counted s = record s { messages_used_current_period = s.messages_used_current_period + 1 }

find_subscription-counted :
    (tenant : ℕ) (ss : List Subscription) {s : Subscription}
    → find_subscription tenant ss ≡ some s
    → find_subscription tenant (update_where (has_tenant tenant) counted ss) ≡ some (counted s)
unfolding find_subscription find update_where
find_subscription-counted tenant [] h = cc
find_subscription-counted tenant (x ∷ ss) {s} h =
    ground (arith, find_subscription-counted tenant ss {s = s})

increment_messages_used-found :
    (tenant : ℕ) (b : BillingStore) {s : Subscription}
    → find_subscription tenant b.subscriptions ≡ some s
    → increment_messages_used tenant b ≡ (
      ok (counted s).messages_used_current_period,
      record b { subscriptions = update_where (has_tenant tenant) counted b.subscriptions },
    )
unfolding increment_messages_used
increment_messages_used-found tenant b h = rw h refl

-- The messages that a stored subscription has counted; a tenant without one has none.
abbrev pub messages_counted : Option Subscription → ℕ
messages_counted none = 0
messages_counted (some s) = s.messages_used_current_period

get_or_create_for_tenant-counted :
    (env : Env) (tenant : ℕ) (b : BillingStore) {b' : BillingStore} {u : UsageSummary}
    → get_or_create_for_tenant env tenant b ≡ (ok u, b')
    → u.subscription.messages_used_current_period
      ≡ messages_counted (find_subscription tenant b.subscriptions)
unfolding get_or_create_for_tenant
get_or_create_for_tenant-counted env tenant b {b'} {u} e = ground arith

-- A message that the gate lets pass is counted: afterwards the tenant has a subscription with one
-- message more than were counted for the tenant before, none where it had no subscription, and that
-- number is at most the limit of its plan, where the plan has one.
pub check_and_increment-IsWithin :
    (env : Env) (tenant : ℕ) (b b' : BillingStore)
    → check_and_increment_ai_message_usage env tenant b ≡ (ok tt, b')
    → (s : Subscription) × (plan : Plan) × (find_subscription tenant b'.subscriptions ≡ some s)
      × (find_plan s.plan_id b'.plans ≡ some plan)
      × (s.messages_used_current_period
          ≡ messages_counted (find_subscription tenant b.subscriptions) + 1)
      × IsWithin plan.max_messages_per_month s.messages_used_current_period
unfolding check_and_increment_ai_message_usage
check_and_increment-IsWithin env tenant b b' e =
    let (u, m, got, rest) = >>=-returned (get_or_create_for_tenant env tenant) _ b e in
    let (there, planned, same) = get_or_create_for_tenant-stored env tenant b got in
    let (v, n, passed, counts) =
      >>=-returned
        (throw_if_reached ai_message_limit u.plan.max_messages_per_month
          u.subscription.messages_used_current_period)
        (λ w. increment_messages_used tenant >> pure tt) m rest in
    let (below, kept) = throw_if_reached-IsBelow ai_message_limit _ _ m passed in
    let kept_row : find_subscription tenant n.subscriptions ≡ some u.subscription =
      subst (λ c. find_subscription tenant c.subscriptions ≡ some u.subscription) (sym kept)
        there in
    let plans : find_plan u.subscription.plan_id n.plans ≡ some u.plan =
      subst (λ c. find_plan u.subscription.plan_id c.plans ≡ some u.plan) (sym kept) planned in
    let (y, z, increased, last) =
      >>=-returned (increment_messages_used tenant) (λ x. pure tt) n counts in
    let found = increment_messages_used-found tenant n kept_row in
    let state : record n {
      subscriptions = update_where (has_tenant tenant) counted n.subscriptions;
    }
        ≡ b' =
      ap (λ p. p.1) (sym found) ∙ ap (λ p. p.1) increased ∙ ap (λ p. p.1) last in
    (
      counted u.subscription,
      u.plan,
      subst (λ c. find_subscription tenant c.subscriptions ≡ some (counted u.subscription)) state
          (find_subscription-counted tenant n.subscriptions kept_row),
      subst (λ c. find_plan u.subscription.plan_id c.plans ≡ some u.plan) state plans,
      ap (λ n. n + 1) (get_or_create_for_tenant-counted env tenant b got),
      IsBelow-suc u.plan.max_messages_per_month _ below,
    )
