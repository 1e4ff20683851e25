-- ===== src/Billing/Processing.antt =====
-- The state of a webhook log after its job:
-- backend/src/modules/billing/application/stripe-event-processor.service.ts.
use kapis_receptionist.Prelude.Action.{Keeps, keeps_rules, Keeps-pure, Action, Keeps-modify}
use kapis_receptionist.Prelude.{ℕ, ◌≡◌, Option, none, some, find}
use kapis_receptionist.Billing.Stripe.{
  StripeSubscription, StripeEnv, WebhookLog, payment_intent_event, StripeInvoice, StripeEvent,
  PaymentRow, StripeStore, InvoiceEventType, write_audit, StripePaymentIntent, EventObject,
  PaymentEventType, invoice_event, unhandled_event, on_billing, InvoiceRow, subscription_event,
  BillingAudit,
}
use kapis_receptionist.Billing.Lifecycle.{update_status, require_tenant, sync_status_from_billing}
use kapis_receptionist.Billing.Subscriptions.{
  apply_to, sync_tenant, StripeSubscriptionSyncData, apply_stripe_subscription_event,
  update_subscription,
}
use kapis_receptionist.Billing.Entitlement.{Subscription, BillingError, BillingStore}
use kapis_receptionist.Billing.StripeEvents.{
  invoice_for, payment_for, invoice_of_customer, is_log, upsert_by_stripe_payment_intent_id,
  reset_period_usage, StripeTexts, dispatch, handle_payment_intent_event, handle_invoice_event,
  upsert_by_stripe_invoice_id, payment_of_customer, dispatch_payload, subscription_of_customer,
  handle_subscription_event,
}
use kapis_receptionist.Rows.{TenantStatus}

abbrev pub HasLog : ℕ → WebhookLog → StripeStore → Type 0
HasLog id log s = find (is_log id) s.logs ≡ some log

module _ (id : ℕ) (log : WebhookLog) where
  on_billing-HasLog :
      {A : Type 0} (m : Action BillingStore BillingError A) → Keeps (HasLog id log) (on_billing m)
  unfolding on_billing
  on_billing-HasLog m = record { at = λ s h. h }

  update_status-HasLog :
      (t : ℕ) (status : TenantStatus) (extra : Option (Option ℕ))
      → Keeps (HasLog id log) (update_status t status extra)
  unfolding update_status
  update_status-HasLog t status extra = search (keeps_rules, Keeps-modify) depth 12

  write_audit-HasLog : (e : BillingAudit) → Keeps (HasLog id log) (write_audit e)
  unfolding write_audit
  write_audit-HasLog e = search (keeps_rules, Keeps-modify) depth 12

  update_subscription-HasLog :
      (t : ℕ) (f : Subscription → Subscription) → Keeps (HasLog id log) (update_subscription t f)
  unfolding update_subscription
  update_subscription-HasLog t f = on_billing-HasLog _

  sync_status-HasLog :
      (t : ℕ) (status : TenantStatus) → Keeps (HasLog id log) (sync_status_from_billing t status)
  unfolding sync_status_from_billing require_tenant
  sync_status-HasLog t status =
      search (keeps_rules, update_status-HasLog, write_audit-HasLog) depth 14

  sync_tenant-HasLog : (t : ℕ) (o : Option TenantStatus) → Keeps (HasLog id log) (sync_tenant t o)
  sync_tenant-HasLog t none = Keeps-pure tt
  sync_tenant-HasLog t (some status) = search (keeps_rules, sync_status-HasLog) depth 12

  apply_to-HasLog :
      (sync : StripeSubscriptionSyncData) (o : Option Subscription)
      → Keeps (HasLog id log) (apply_to sync o)
  apply_to-HasLog sync none = Keeps-pure tt
  apply_to-HasLog sync (some existing) =
      search (keeps_rules, update_subscription-HasLog, write_audit-HasLog, sync_tenant-HasLog) depth
        12

  handle_subscription_event-HasLog :
      (subscription : StripeSubscription) (o : Option ℕ)
      → Keeps (HasLog id log) (subscription_of_customer subscription o)
  unfolding apply_stripe_subscription_event
  handle_subscription_event-HasLog subscription none = Keeps-pure none
  handle_subscription_event-HasLog subscription (some customer) =
      search (keeps_rules, apply_to-HasLog) depth 12

module _ (x : StripeTexts) (env : StripeEnv) (id : ℕ) (log : WebhookLog) where
  invoice-HasLog : (input : InvoiceRow) → Keeps (HasLog id log) (upsert_by_stripe_invoice_id input)
  unfolding upsert_by_stripe_invoice_id
  invoice-HasLog input = record { at = λ s h. h }

  payment-HasLog :
      (input : PaymentRow) → Keeps (HasLog id log) (upsert_by_stripe_payment_intent_id input)
  unfolding upsert_by_stripe_payment_intent_id
  payment-HasLog input = record { at = λ s h. h }

  reset_period_usage-HasLog : (t : ℕ) → Keeps (HasLog id log) (reset_period_usage t)
  unfolding reset_period_usage
  reset_period_usage-HasLog t = search (keeps_rules, update_subscription-HasLog) depth 12

  invoice_for-HasLog :
      (event : ℕ) (type : InvoiceEventType) (invoice : StripeInvoice) (o : Option Subscription)
      → Keeps (HasLog id log) (invoice_for x env event type invoice o)
  invoice_for-HasLog event type invoice none = Keeps-pure none
  invoice_for-HasLog event type invoice (some local) =
      search (keeps_rules, invoice-HasLog, reset_period_usage-HasLog) depth 12

  invoice_of_customer-HasLog :
      (event : ℕ) (type : InvoiceEventType) (invoice : StripeInvoice) (o : Option ℕ)
      → Keeps (HasLog id log) (invoice_of_customer x env event type invoice o)
  invoice_of_customer-HasLog event type invoice none = Keeps-pure none
  invoice_of_customer-HasLog event type invoice (some customer) =
      search (keeps_rules, invoice_for-HasLog) depth 12

  payment_for-HasLog :
      (type : PaymentEventType) (intent : StripePaymentIntent) (o : Option Subscription)
      → Keeps (HasLog id log) (payment_for x env type intent o)
  payment_for-HasLog type intent none = Keeps-pure none
  payment_for-HasLog type intent (some local) = search (keeps_rules, payment-HasLog) depth 12

  payment_of_customer-HasLog :
      (type : PaymentEventType) (intent : StripePaymentIntent) (o : Option ℕ)
      → Keeps (HasLog id log) (payment_of_customer x env type intent o)
  payment_of_customer-HasLog type intent none = Keeps-pure none
  payment_of_customer-HasLog type intent (some customer) =
      search (keeps_rules, payment_for-HasLog) depth 12

  dispatch-HasLog :
      (event : ℕ) (body : EventObject) → Keeps (HasLog id log) (dispatch x env event body)
  unfolding dispatch handle_subscription_event handle_invoice_event handle_payment_intent_event
  dispatch-HasLog event (subscription_event subscription) =
      handle_subscription_event-HasLog id log subscription _
  dispatch-HasLog event (invoice_event type invoice) =
      invoice_of_customer-HasLog event type invoice _
  dispatch-HasLog event (payment_intent_event type intent) =
      payment_of_customer-HasLog type intent _
  dispatch-HasLog event unhandled_event = Keeps-pure none

  pub dispatch_payload-HasLog :
      (o : Option StripeEvent) → Keeps (HasLog id log) (dispatch_payload x env o)
  dispatch_payload-HasLog none = Keeps-pure none
  dispatch_payload-HasLog (some event) = dispatch-HasLog event.id event.body
