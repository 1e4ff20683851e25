-- ===== src/Billing/Checkout.antt =====
-- backend/src/modules/billing/application/checkout.service.ts.
use kapis_receptionist.Prelude.{
  ℕ, ◌+◌, Bool, false, not, Option, none, some, ltb, leb, ◌==◌, find, update_where,
}
use kapis_receptionist.Billing.Subscriptions.{
  env_of, update_subscription, get_for_tenant, is_usable_plan,
}
use kapis_receptionist.Prelude.Action.{gets, modify, or_throw, throw_if, pure, throw, ◌>>=◌, ◌>>◌}
use kapis_receptionist.Billing.Stripe.{
  StripeEnv, checkout_created, BillingAction, write_audit, Coupon, call_stripe,
}
use kapis_receptionist.Rbac.{AccessTokenPayload}
use kapis_receptionist.Billing.Entitlement.{
  plan_not_found, invalid_coupon, find_plan, record_not_found,
}
use kapis_receptionist.Billing.Lifecycle.{require_tenant}

abbrev pub has_code : ℕ → Coupon → Bool
has_code code c = c.code == code

abbrev pub is_expired_coupon : ℕ → Option ℕ → Bool
is_expired_coupon now none = false
is_expired_coupon now (some instant) = ltb instant now

abbrev pub is_used_up : Coupon → Option ℕ → Bool
is_used_up c none = false
is_used_up c (some max) = leb max c.redemption_count

abbrev pub valid_coupon : StripeEnv → Option Coupon → BillingAction Coupon
valid_coupon env none = throw invalid_coupon
valid_coupon env (some c) = do
  throw_if (not c.is_active) invalid_coupon
  throw_if (is_expired_coupon env.now c.expires_at) invalid_coupon
  throw_if (is_used_up c c.max_redemptions) invalid_coupon
  pure c

unfoldable pub resolve_coupon : StripeEnv → ℕ → BillingAction Coupon
unfolding ◌>>=◌ find
resolve_coupon env code = do
  found ← gets (λ s. find (has_code code) s.coupons)
  valid_coupon env found

abbrev pub redeemed : Coupon → Coupon
redeemed c = record c { redemption_count = c.redemption_count + 1 }

unfoldable pub increment_redemption_count : ℕ → BillingAction (Unit {0})
unfolding ◌>>=◌ find update_where
increment_redemption_count id = do
  found ← gets (λ s. find (λ c. c.id == id) s.coupons)
  or_throw found record_not_found
  modify (λ s. record s { coupons = update_where (λ c. c.id == id) redeemed s.coupons })

-- `stripeCustomerId`, which the first checkout creates.
abbrev pub customer_for : StripeEnv → ℕ → Option ℕ → BillingAction ℕ
customer_for env tenant (some id) = pure id
customer_for env tenant none = do
  require_tenant tenant
  call_stripe env
  update_subscription tenant (λ s. record s { stripe_customer_id = some env.stripe_customer })
  pure env.stripe_customer

abbrev pub coupon_for : StripeEnv → Option ℕ → BillingAction (Option ℕ)
coupon_for env none = pure none
coupon_for env (some code) = do
  coupon ← resolve_coupon env code
  increment_redemption_count coupon.id
  pure coupon.stripe_coupon_id

unfoldable pub create_checkout_session :
    StripeEnv → ℕ → ℕ → AccessTokenPayload → Option ℕ → BillingAction (Option ℕ × ℕ)
unfolding ◌>>=◌ find_plan get_for_tenant require_tenant update_subscription resolve_coupon
    increment_redemption_count call_stripe write_audit
create_checkout_session env tenant plan_id actor code = do
  found ← gets (λ s. find_plan plan_id s.billing.plans)
  plan ← or_throw (is_usable_plan found) plan_not_found
  summary ← get_for_tenant (env_of env) tenant
  customer_for env tenant summary.subscription.stripe_customer_id
  coupon_for env code
  call_stripe env
  write_audit (checkout_created tenant actor.sub plan_id)
  pure (env.checkout_url, summary.subscription.id)
