-- ===== src/Tests/Guarantees.antt =====
-- Locks, roles, entitlements and weekly hours.
use kapis_receptionist.Prelude.{◌+◌, ◌≡◌, refl, none, some, [], ◌∷◌, arith, leb, any}
use kapis_receptionist.Billing.Entitlement.{
  resolve_limit, BillingStore, find_plan, Subscription, appointment_limit, Plan,
  get_or_create_for_tenant, trial_of, find_subscription, check_and_increment_ai_message_usage,
  assert_within_limit,
}
use kapis_receptionist.Rbac.{
  staff, satisfies_some_role, satisfies_role_requirement, role_rank, owner, manager,
}
use kapis_receptionist.Tests.Fixtures.{salon, env, keys_redis, books, starter, keys_run}
use kapis_receptionist.Billing.Entitlement.Limits.{
  IsWithin, IsBelow, check_and_increment-IsWithin, get_or_create_for_tenant-stored,
  assert_within_limit-IsBelow, messages_counted,
}
use kapis_receptionist.Locking.Acquire.{acquire-AllOrNothing, AllOrNothing}
use kapis_receptionist.Salon.BusinessHours.Tenants.{replace_business_hours-other}
use kapis_receptionist.Salon.BusinessHours.{get_business_hours, replace_business_hours}
use kapis_receptionist.Locking.{acquire}

acquire-AllOrNothing_example :
    AllOrNothing ⦃r = keys_redis⦄ keys_run
      (λ e. e + 100)
      1
      (λ t e. none)
      (7 ∷ [])
      (acquire ⦃r = keys_redis⦄ (λ e. e + 100) 1 (7 ∷ []) (λ t e. none))
acquire-AllOrNothing_example =
    acquire-AllOrNothing ⦃r = keys_redis⦄ keys_run (λ e. e + 100) 1 (7 ∷ []) (λ t e. none)

satisfies_some_role_example :
    satisfies_role_requirement (manager ∷ []) (owner ∷ staff ∷ [])
    ≡ any (λ r. any (λ p. leb (role_rank p) (role_rank r)) (owner ∷ staff ∷ [])) (manager ∷ [])
satisfies_some_role_example = satisfies_some_role (manager ∷ []) owner (staff ∷ [])

abbrev trial : Subscription
trial = trial_of 0 50 1 starter

abbrev with_trial : BillingStore
with_trial = record { plans = starter ∷ []; subscriptions = trial ∷ [] }

get_or_create_for_tenant-stored_example :
    (find_subscription 1 with_trial.subscriptions ≡ some trial)
    × (find_plan 2 with_trial.plans ≡ some starter)
    × (with_trial.plans ≡ books.plans)
unfolding get_or_create_for_tenant
get_or_create_for_tenant-stored_example =
    get_or_create_for_tenant-stored env 1 books {b' = with_trial}
      {u = record { subscription = trial; plan = starter }} refl

assert_within_limit-IsBelow_example :
    (s : Subscription) × (plan : Plan) × (find_subscription 1 with_trial.subscriptions ≡ some s)
    × (find_plan s.plan_id with_trial.plans ≡ some plan)
    × IsBelow (resolve_limit plan appointment_limit) 99
unfolding assert_within_limit
assert_within_limit-IsBelow_example =
    assert_within_limit-IsBelow env 1 appointment_limit 99 books {b' = with_trial} refl

abbrev with_message : BillingStore
with_message = record {
  plans = starter ∷ [];
  subscriptions = record trial { messages_used_current_period = 1 } ∷ [];
}

check_and_increment-IsWithin_example :
    (s : Subscription) × (plan : Plan) × (find_subscription 1 with_message.subscriptions ≡ some s)
    × (find_plan s.plan_id with_message.plans ≡ some plan)
    × (s.messages_used_current_period
        ≡ messages_counted (find_subscription 1 books.subscriptions) + 1)
    × IsWithin plan.max_messages_per_month s.messages_used_current_period
unfolding check_and_increment_ai_message_usage
check_and_increment-IsWithin_example = check_and_increment-IsWithin env 1 books with_message refl

replace_business_hours-other_example :
    get_business_hours
      (replace_business_hours 2 60 [] (record { rows = salon.business_hours; audit = [] })).1.rows
      1
    ≡ get_business_hours salon.business_hours 1
replace_business_hours-other_example =
    replace_business_hours-other 2 1 60 [] (record { rows = salon.business_hours; audit = [] })
      (omega arith)
