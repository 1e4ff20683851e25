-- ===== src/Billing/StripeEvents.antt =====
-- backend/src/modules/billing/application/stripe-event-processor.service.ts with
-- usage-tracking.service.ts, infrastructure/prisma-invoice.repository.ts,
-- prisma-payment.repository.ts and prisma-webhook-log.repository.ts.
use kapis_receptionist.Prelude.{
  ℕ, ◌*◌, Bool, true, false, ◌&&◌, Option, none, some, List, ◌∷◌, ◌==◌, if◌then◌else◌, get_or, any,
  find, update_where, or_else,
}
use kapis_receptionist.Billing.Stripe.{
  StripeInvoiceStatus, paid_word, PaymentRow, void_word, InvoiceEventType, no_customer, draft_word,
  intent_succeeded, unhandled_event, other_invoice_word, paid_invoice, InvoiceRow, open_word,
  uncollectible_invoice, uncollectible_word, invoice_event, subscription_event, invoice_paid,
  StripePaymentIntent, PaymentStatus, StripeInvoice, open_invoice, StripeEvent,
  payment_intent_event, void_invoice, expanded_customer, processed_log, failed_log, CustomerRef,
  BillingAction, EventObject, InvoiceStatus, payment_failed, StripeEnv, StripeSubscription,
  plain_customer, PaymentEventType, payment_succeeded, WebhookStatus, WebhookLog, draft_invoice,
  intent_failed,
}
use kapis_receptionist.Billing.Subscriptions.{
  find_by_stripe_customer, StripeSubscriptionSyncData, apply_stripe_subscription_event,
  update_subscription,
}
use kapis_receptionist.Billing.Entitlement.{BillingError, Subscription, record_not_found}
use kapis_receptionist.Prelude.Action.{pure, ◌>>=◌, or_throw, catch, gets, throw, modify, ◌>>◌}

-- `STRIPE_INVOICE_STATUS_MAP[...] ?? InvoiceStatus.OPEN`
abbrev pub stripe_invoice_status : StripeInvoiceStatus → InvoiceStatus
stripe_invoice_status draft_word = draft_invoice
stripe_invoice_status open_word = open_invoice
stripe_invoice_status paid_word = paid_invoice
stripe_invoice_status void_word = void_invoice
stripe_invoice_status uncollectible_word = uncollectible_invoice
stripe_invoice_status other_invoice_word = open_invoice

-- `toDate`: zero is no date either.
abbrev pub to_date : Option ℕ → Option ℕ
to_date none = none
to_date (some unix_seconds) = if unix_seconds == 0 then none else some (unix_seconds * 1000)

abbrev pub customer_id_of : CustomerRef → Option ℕ
customer_id_of no_customer = none
customer_id_of (plain_customer id) = some id
customer_id_of (expanded_customer id) = some id

abbrev pub is_paid : InvoiceStatus → Bool
is_paid paid_invoice = true
is_paid s = false

abbrev pub is_invoice_paid : InvoiceEventType → Bool
is_invoice_paid invoice_paid = true
is_invoice_paid t = false

abbrev pub payment_status_of : PaymentEventType → PaymentStatus
payment_status_of intent_succeeded = payment_succeeded
payment_status_of intent_failed = payment_failed

abbrev pub is_log : ℕ → WebhookLog → Bool
is_log id l = l.id == id

abbrev pub has_stripe_invoice : ℕ → InvoiceRow → Bool
has_stripe_invoice id i = i.stripe_invoice_id == id

abbrev pub has_stripe_intent : ℕ → PaymentRow → Bool
has_stripe_intent id p = p.stripe_payment_intent_id == id

-- The columns that `upsertByStripeInvoiceId` updates of a row that is there.
abbrev pub updated_invoice : InvoiceRow → InvoiceRow → InvoiceRow
updated_invoice input row = record row {
  amount_due_cents = input.amount_due_cents;
  amount_paid_cents = input.amount_paid_cents;
  status = input.status;
  invoice_pdf_url = input.invoice_pdf_url;
  due_at = input.due_at;
  paid_at = input.paid_at;
}

abbrev pub updated_payment : PaymentRow → PaymentRow → PaymentRow
updated_payment input row = record row {
  status = input.status;
  failure_code = input.failure_code;
  failure_message = input.failure_message;
}

-- `upsert` of a table with a unique key.
abbrev pub upserted_rows : {A : Type 0} → (A → Bool) → (A → A) → A → List A → List A
upserted_rows p f row rows = if any p rows then update_where p f rows else row ∷ rows

unfoldable pub upsert_by_stripe_invoice_id : InvoiceRow → BillingAction (Unit {0})
unfolding modify any update_where
upsert_by_stripe_invoice_id input = modify (λ s. record s {
  invoices =
      upserted_rows (has_stripe_invoice input.stripe_invoice_id) (updated_invoice input) input
        s.invoices;
})

unfoldable pub upsert_by_stripe_payment_intent_id : PaymentRow → BillingAction (Unit {0})
unfolding modify any update_where
upsert_by_stripe_payment_intent_id input = modify (λ s. record s {
  payments =
      upserted_rows (has_stripe_intent input.stripe_payment_intent_id) (updated_payment input) input
        s.payments;
})

-- `resetPeriodUsage` and `resetMessagesUsed`
unfoldable pub reset_period_usage : ℕ → BillingAction (Unit {0})
unfolding ◌>>=◌ update_subscription
reset_period_usage tenant =
    update_subscription tenant (λ s. record s { messages_used_current_period = 0 }) >> pure tt

abbrev pub sync_data : ℕ → StripeSubscription → StripeSubscriptionSyncData
sync_data customer subscription = record {
  stripe_subscription_id = subscription.id;
  stripe_customer_id = customer;
  stripe_status = subscription.status;
  stripe_price_id = subscription.price_id;
  current_period_start = to_date subscription.current_period_start;
  current_period_end = to_date subscription.current_period_end;
  cancel_at_period_end = subscription.cancel_at_period_end;
  canceled_at = to_date subscription.canceled_at;
}

abbrev pub tenant_of_subscription : Option Subscription → Option ℕ
tenant_of_subscription none = none
tenant_of_subscription (some s) = some s.tenant_id

abbrev pub subscription_of_customer : StripeSubscription → Option ℕ → BillingAction (Option ℕ)
subscription_of_customer subscription none = pure none
subscription_of_customer subscription (some customer) = do
  apply_stripe_subscription_event (sync_data customer subscription)
  local ← gets (λ s. find_by_stripe_customer customer s.billing.subscriptions)
  pure (tenant_of_subscription local)

unfoldable pub handle_subscription_event : StripeSubscription → BillingAction (Option ℕ)
unfolding ◌>>=◌ apply_stripe_subscription_event find_by_stripe_customer
handle_subscription_event subscription =
    subscription_of_customer subscription (customer_id_of subscription.customer)

-- `unknown-${event.id}` and `toUpperCase`, on texts that are numbers here.
pub record StripeTexts : Type 0 where
  pub unknown_invoice : ℕ → ℕ
  pub to_upper_case : ℕ → ℕ

-- An invoice without an identifier is stored under one made of that of the event.
abbrev pub invoice_input : StripeTexts → StripeEnv → ℕ → StripeInvoice → Subscription → InvoiceRow
invoice_input x env event_id invoice local = record {
  tenant_id = local.tenant_id;
  subscription_id = local.id;
  stripe_invoice_id = get_or invoice.id (x.unknown_invoice event_id);
  amount_due_cents = invoice.amount_due;
  amount_paid_cents = invoice.amount_paid;
  currency = x.to_upper_case invoice.currency;
  status = stripe_invoice_status invoice.status;
  invoice_pdf_url = invoice.invoice_pdf;
  issued_at = get_or (to_date invoice.created) env.now;
  due_at = to_date invoice.due_date;
  paid_at = if is_paid (stripe_invoice_status invoice.status) then some env.now else none;
}

module _ (x : StripeTexts) (env : StripeEnv) where
  abbrev pub invoice_for :
      ℕ → InvoiceEventType → StripeInvoice → Option Subscription → BillingAction (Option ℕ)
  invoice_for event_id type invoice none = pure none
  invoice_for event_id type invoice (some local) = do
    upsert_by_stripe_invoice_id (invoice_input x env event_id invoice local)
    if is_invoice_paid type && is_paid (stripe_invoice_status invoice.status)
        then reset_period_usage local.tenant_id
        else pure tt
    pure (some local.tenant_id)

  abbrev pub invoice_of_customer :
      ℕ → InvoiceEventType → StripeInvoice → Option ℕ → BillingAction (Option ℕ)
  invoice_of_customer event_id type invoice none = pure none
  invoice_of_customer event_id type invoice (some customer) = do
    local ← gets (λ s. find_by_stripe_customer customer s.billing.subscriptions)
    invoice_for event_id type invoice local

  unfoldable pub handle_invoice_event :
      ℕ → InvoiceEventType → StripeInvoice → BillingAction (Option ℕ)
  unfolding ◌>>=◌ find_by_stripe_customer upsert_by_stripe_invoice_id reset_period_usage
  handle_invoice_event event_id type invoice =
      invoice_of_customer event_id type invoice (customer_id_of invoice.customer)

  abbrev pub payment_input : PaymentEventType → StripePaymentIntent → Subscription → PaymentRow
  payment_input type intent local = record {
    tenant_id = local.tenant_id;
    invoice_id = none;
    stripe_payment_intent_id = intent.id;
    amount_cents = intent.amount;
    currency = x.to_upper_case intent.currency;
    status = payment_status_of type;
    failure_code = intent.error_code;
    failure_message = intent.error_message;
    attempted_at = env.now;
  }

  abbrev pub payment_for :
      PaymentEventType → StripePaymentIntent → Option Subscription → BillingAction (Option ℕ)
  payment_for type intent none = pure none
  payment_for type intent (some local) = do
    upsert_by_stripe_payment_intent_id (payment_input type intent local)
    pure (some local.tenant_id)

  abbrev pub payment_of_customer :
      PaymentEventType → StripePaymentIntent → Option ℕ → BillingAction (Option ℕ)
  payment_of_customer type intent none = pure none
  payment_of_customer type intent (some customer) = do
    local ← gets (λ s. find_by_stripe_customer customer s.billing.subscriptions)
    payment_for type intent local

  unfoldable pub handle_payment_intent_event :
      PaymentEventType → StripePaymentIntent → BillingAction (Option ℕ)
  unfolding ◌>>=◌ find_by_stripe_customer upsert_by_stripe_payment_intent_id
  handle_payment_intent_event type intent =
      payment_of_customer type intent (customer_id_of intent.customer)

  unfoldable pub dispatch : ℕ → EventObject → BillingAction (Option ℕ)
  unfolding ◌>>=◌ handle_subscription_event handle_invoice_event handle_payment_intent_event
  dispatch event_id (subscription_event subscription) = handle_subscription_event subscription
  dispatch event_id (invoice_event type invoice) = handle_invoice_event event_id type invoice
  dispatch event_id (payment_intent_event type intent) = handle_payment_intent_event type intent
  dispatch event_id unhandled_event = pure none

  abbrev pub processed_row :
      WebhookStatus → Option ℕ → Option BillingError → WebhookLog → WebhookLog
  processed_row status tenant e l = record l {
    processing_status = status;
    processed_at = some env.now;
    tenant_id = or_else tenant l.tenant_id;
    error_message = or_else e l.error_message;
  }

  unfoldable pub update_log_status :
      ℕ → WebhookStatus → Option ℕ → Option BillingError → BillingAction (Unit {0})
  unfolding ◌>>=◌ find update_where
  update_log_status id status tenant e = do
    found ← gets (λ s. find (is_log id) s.logs)
    or_throw found record_not_found
    modify
        (λ s. record s { logs = update_where (is_log id) (processed_row status tenant e) s.logs })

  -- A log without an event has no type, and the default branch takes it.
  abbrev pub dispatch_payload : Option StripeEvent → BillingAction (Option ℕ)
  dispatch_payload none = pure none
  dispatch_payload (some event) = dispatch event.id event.body

  abbrev pub process_log : WebhookLog → BillingAction (Unit {0})
  process_log log =
      catch
        (do
          tenant ← dispatch_payload log.payload
          update_log_status log.id processed_log tenant none)
        (λ e. update_log_status log.id failed_log none (some e) >> throw e)

  abbrev pub process_found : Option WebhookLog → BillingAction (Unit {0})
  process_found none = pure tt
  process_found (some log) = process_log log

  unfoldable pub process : ℕ → BillingAction (Unit {0})
  unfolding ◌>>=◌ catch find dispatch update_log_status
  process webhook_log_id = do
    found ← gets (λ s. find (is_log webhook_log_id) s.logs)
    process_found found
