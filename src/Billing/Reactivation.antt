-- ===== src/Billing/Reactivation.antt =====
-- Cancelling a subscription at the end of its period, and taking that back:
-- backend/src/modules/billing/application/subscriptions.service.ts.
use kapis_receptionist.Prelude.{
  ℕ, ◌≡◌, refl, true, false, none, some, ◌∷◌, ap, ◌∙◌, not, ◌||◌, Option, arith, is_some,
}
use kapis_receptionist.Billing.Stripe.{
  StripeStore, write_audit, call_stripe, subscription_canceled, StripeEnv, on_billing,
  subscription_reactivated,
}
use kapis_receptionist.Billing.Sync.{
  find_subscription-changed, changed, update_subscription-changed,
}
use kapis_receptionist.Billing.Entitlement.{
  Plan, find_subscription, Subscription, get_or_create_for_tenant, find_plan,
}
use kapis_receptionist.Rows.{Env}
use kapis_receptionist.Billing.Subscriptions.{
  env_of, reactivate, by_user, get_for_tenant, is_canceled, cancel_known,
}
use kapis_receptionist.Rbac.{AccessTokenPayload}
use kapis_receptionist.Billing.Subscriptions.{cancel, reactivate}
use kapis_receptionist.Prelude.Action.{ok, ◌>>=◌}

get_for_tenant-found :
    (env : Env) (tenant : ℕ) (s : StripeStore) {row : Subscription} {plan : Plan}
    → find_subscription tenant s.billing.subscriptions ≡ some row
    → find_plan row.plan_id s.billing.plans ≡ some plan
    → get_for_tenant env tenant s ≡ (ok (record { subscription = row; plan = plan }), s)
unfolding get_for_tenant on_billing get_or_create_for_tenant
get_for_tenant-found env tenant s there planned = rw (there, planned) refl

module _ (env : StripeEnv) (tenant : ℕ) (actor : AccessTokenPayload) where
  abbrev scheduled : Subscription → Subscription
  scheduled s = by_user actor (record s { cancel_at_period_end = true })

  abbrev resumed : Subscription → Subscription
  resumed s = by_user actor (record s { cancel_at_period_end = false; canceled_at = none })

  cancel_known-scheduled :
      (o : Option ℕ) (s : StripeStore) {row : Subscription}
      → is_some o ≡ true
      → find_subscription tenant s.billing.subscriptions ≡ some row
      → env.stripe_answers ≡ true
      → cancel_known env tenant actor o s ≡ (ok (scheduled row), changed tenant scheduled s)
  unfolding call_stripe ◌>>=◌
  cancel_known-scheduled none s h there answers = absurd (ground arith)
  cancel_known-scheduled (some id) s h there answers =
      rw (answers, update_subscription-changed tenant scheduled s there) refl

  cancel-scheduled :
      (s : StripeStore) {row : Subscription} {plan : Plan}
      → find_subscription tenant s.billing.subscriptions ≡ some row
      → find_plan row.plan_id s.billing.plans ≡ some plan
      → is_some row.stripe_subscription_id ≡ true
      → (row.cancel_at_period_end || is_canceled row.status) ≡ false
      → env.stripe_answers ≡ true
      → cancel env tenant actor s ≡ (
        ok (scheduled row),
        record (changed tenant scheduled s) {
          audit =
              subscription_canceled tenant actor.sub (is_some row.stripe_subscription_id) ∷ s.audit;
        },
      )
  unfolding cancel write_audit
  cancel-scheduled s {row} there planned subscribed running answers =
      rw
        (
          get_for_tenant-found (env_of env) tenant s there planned,
          running,
          cancel_known-scheduled row.stripe_subscription_id s subscribed there answers,
        )
        refl

  reactivate-resumed :
      (s : StripeStore) {row : Subscription} {plan : Plan}
      → find_subscription tenant s.billing.subscriptions ≡ some row
      → find_plan row.plan_id s.billing.plans ≡ some plan
      → (not row.cancel_at_period_end || not (is_some row.stripe_subscription_id)) ≡ false
      → env.stripe_answers ≡ true
      → reactivate env tenant actor s ≡ (
        ok (resumed row),
        record (changed tenant resumed s) {
          audit = subscription_reactivated tenant actor.sub ∷ s.audit;
        },
      )
  unfolding reactivate call_stripe write_audit
  reactivate-resumed s there planned subscribed answers =
      rw
        (
          get_for_tenant-found (env_of env) tenant s there planned,
          subscribed,
          answers,
          update_subscription-changed tenant resumed s there,
        )
        refl

  -- Where Stripe answers, a running subscription with a Stripe subscription that is cancelled can
  -- be reactivated: the subscription that is returned, and that is stored for the tenant then, is as
  -- it was before the cancellation, but for who changed it last.
  pub cancel-reactivate :
      (s : StripeStore) {row : Subscription} {plan : Plan}
      → find_subscription tenant s.billing.subscriptions ≡ some row
      → find_plan row.plan_id s.billing.plans ≡ some plan
      → is_some row.stripe_subscription_id ≡ true
      → row.cancel_at_period_end ≡ false
      → row.canceled_at ≡ none
      → is_canceled row.status ≡ false
      → env.stripe_answers ≡ true
      → ((reactivate env tenant actor (cancel env tenant actor s).1).0 ≡ ok (by_user actor row))
        × (find_subscription tenant
              (reactivate env tenant actor (cancel env tenant actor s).1).1.billing.subscriptions
            ≡ some (by_user actor row))
  cancel-reactivate s {row} {plan} there planned subscribed running whole live answers =
      let same : resumed (scheduled row) ≡ by_user actor row = rw (running, whole) refl in
      let cancelled_row =
        find_subscription-changed tenant scheduled s.billing.subscriptions (λ w. refl) there in
      let again =
        reactivate-resumed
          (record (changed tenant scheduled s) {
            audit =
                subscription_canceled tenant actor.sub (is_some row.stripe_subscription_id)
                ∷ s.audit;
          })
          cancelled_row planned (rw subscribed refl) answers in
      rw (cancel-scheduled s there planned subscribed (rw (running, live) refl) answers) (
        ap (λ r. r.0) again ∙ ap ok same,
        ap (λ r. find_subscription tenant r.1.billing.subscriptions) again
            ∙ find_subscription-changed tenant resumed _ (λ w. refl) cancelled_row
            ∙ ap some same,
      )
