-- ===== src/Billing.antt =====
-- backend/src/modules/billing: plans, subscriptions and what they entitle a tenant to.
pub mod Entitlement
pub mod Stripe
pub mod Lifecycle
pub mod Subscriptions
pub mod StripeEvents
pub mod Webhooks
pub mod Checkout
pub mod Redelivery
pub mod Processing
pub mod Outcome
pub mod Sync
pub mod Reactivation
