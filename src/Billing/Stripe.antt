-- ===== src/Billing/Stripe.antt =====
-- The state of backend/src/modules/billing beside the subscriptions themselves, and what a Stripe
-- event carries. Texts that are only stored and compared are numbers.
use kapis_receptionist.Prelude.{ℕ, Bool, not, Option, List, ◌∷◌}
use kapis_receptionist.Billing.Entitlement.{BillingStore, BillingError, stripe_unavailable}
use kapis_receptionist.Prelude.Action.{throw_if, Result, modify, Action}
use kapis_receptionist.Rows.{TenantStatus}

pub data InvoiceStatus : Type 0 where
  draft_invoice open_invoice paid_invoice void_invoice uncollectible_invoice : InvoiceStatus

pub data PaymentStatus : Type 0 where
  payment_succeeded payment_failed payment_pending payment_refunded : PaymentStatus

pub record InvoiceRow : Type 0 where
  pub tenant_id : ℕ
  pub subscription_id : ℕ
  pub stripe_invoice_id : ℕ
  pub amount_due_cents : ℕ
  pub amount_paid_cents : ℕ
  pub currency : ℕ
  pub status : InvoiceStatus
  pub invoice_pdf_url : Option ℕ
  pub issued_at : ℕ
  pub due_at : Option ℕ
  pub paid_at : Option ℕ

pub record PaymentRow : Type 0 where
  pub tenant_id : ℕ
  pub invoice_id : Option ℕ
  pub stripe_payment_intent_id : ℕ
  pub amount_cents : ℕ
  pub currency : ℕ
  pub status : PaymentStatus
  pub failure_code : Option ℕ
  pub failure_message : Option ℕ
  pub attempted_at : ℕ

-- `string | { id: string } | null`
pub data CustomerRef : Type 0 where
  no_customer : CustomerRef
  plain_customer expanded_customer : ℕ → CustomerRef

-- Stripe's own words for the status of a subscription; any other word is unrecognized.
pub data StripeStatus : Type 0 where
  trialing_word active_word past_due_word canceled_word incomplete_word : StripeStatus
  incomplete_expired_word unpaid_word unrecognized_word : StripeStatus

pub data StripeInvoiceStatus : Type 0 where
  draft_word open_word paid_word void_word uncollectible_word other_invoice_word :
      StripeInvoiceStatus

-- Times are in seconds.
pub record StripeSubscription : Type 0 where
  pub id : ℕ
  pub customer : CustomerRef
  pub status : StripeStatus
  pub price_id : Option ℕ
  pub current_period_start : Option ℕ
  pub current_period_end : Option ℕ
  pub cancel_at_period_end : Bool
  pub canceled_at : Option ℕ

pub record StripeInvoice : Type 0 where
  pub id : Option ℕ
  pub customer : CustomerRef
  pub status : StripeInvoiceStatus
  pub amount_due : ℕ
  pub amount_paid : ℕ
  pub currency : ℕ
  pub invoice_pdf : Option ℕ
  pub created : Option ℕ
  pub due_date : Option ℕ

pub record StripePaymentIntent : Type 0 where
  pub id : ℕ
  pub customer : CustomerRef
  pub amount : ℕ
  pub currency : ℕ
  pub error_code : Option ℕ
  pub error_message : Option ℕ

pub data InvoiceEventType : Type 0 where
  invoice_paid invoice_payment_succeeded invoice_finalized invoice_payment_failed : InvoiceEventType

pub data PaymentEventType : Type 0 where
  intent_succeeded intent_failed : PaymentEventType

-- The events that `dispatch` tells apart; those on a subscription are handled alike.
pub data EventObject : Type 0 where
  subscription_event : StripeSubscription → EventObject
  invoice_event : InvoiceEventType → StripeInvoice → EventObject
  payment_intent_event : PaymentEventType → StripePaymentIntent → EventObject
  unhandled_event : EventObject

pub record StripeEvent : Type 0 where
  pub id : ℕ
  pub body : EventObject

pub data WebhookStatus : Type 0 where
  pending_log processed_log failed_log ignored_log : WebhookStatus

-- A body that failed the signature check is kept without an event.
pub record WebhookLog : Type 0 where
  pub id : ℕ
  pub provider_event_id : ℕ
  pub payload : Option StripeEvent
  pub tenant_id : Option ℕ
  pub processing_status : WebhookStatus
  pub processed_at : Option ℕ
  pub error_message : Option BillingError

pub record BillingTenant : Type 0 where
  pub id : ℕ
  pub status : TenantStatus
  pub suspended_at : Option ℕ

pub record Coupon : Type 0 where
  pub id : ℕ
  pub code : ℕ
  pub is_active : Bool
  pub expires_at : Option ℕ
  pub max_redemptions : Option ℕ
  pub redemption_count : ℕ
  pub stripe_coupon_id : Option ℕ

-- Action, tenant and actor of a row of `audit_logs`.
pub data BillingAudit : Type 0 where
  plan_changed : ℕ → ℕ → ℕ → ℕ → BillingAudit
  subscription_canceled : ℕ → ℕ → Bool → BillingAudit
  subscription_reactivated : ℕ → ℕ → BillingAudit
  synced_from_stripe : ℕ → StripeStatus → BillingAudit
  checkout_created : ℕ → ℕ → ℕ → BillingAudit
  tenant_suspended tenant_reactivated : ℕ → ℕ → TenantStatus → BillingAudit
  status_synced : ℕ → TenantStatus → TenantStatus → BillingAudit

pub record StripeStore : Type 0 where
  pub billing : BillingStore
  pub tenants : List BillingTenant
  pub coupons : List Coupon
  pub invoices : List InvoiceRow
  pub payments : List PaymentRow
  pub logs : List WebhookLog
  pub jobs : List ℕ  -- the queue `stripe-webhook`, with the log that each job names
  pub dedup : List ℕ  -- the events with a key `dedup:stripe:{id}` in Redis
  pub audit : List BillingAudit

-- What one call draws from outside: the clock, a fresh identifier, what Stripe answers, and whether
-- the database and the queue take a write.
pub record StripeEnv : Type 0 where
  pub now : ℕ
  pub new_id : ℕ
  pub stripe_answers : Bool
  pub stripe_customer : ℕ
  pub checkout_url : Option ℕ
  pub log_is_written : Bool
  pub job_is_queued : Bool

abbrev pub BillingAction : Type 0 → Type 0
BillingAction A = Action StripeStore BillingError A

abbrev pub put_billing :
    {A : Type 0}
    → StripeStore
    → Result BillingError A × BillingStore
    → Result BillingError A × StripeStore
put_billing s (r, b) = (r, record s { billing = b })

-- A method of the services that only use plans and subscriptions.
unfoldable pub on_billing : {A : Type 0} → Action BillingStore BillingError A → BillingAction A
on_billing m s = put_billing s (m s.billing)

unfoldable pub write_audit : BillingAudit → BillingAction (Unit {0})
unfolding modify
write_audit e = modify (λ s. record s { audit = e ∷ s.audit })

-- `callStripe`
unfoldable pub call_stripe : StripeEnv → BillingAction (Unit {0})
unfolding throw_if
call_stripe env = throw_if (not env.stripe_answers) stripe_unavailable
