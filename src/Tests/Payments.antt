-- ===== src/Tests/Payments.antt =====
-- Stripe events: an invoice, a subscription and their webhook log.
use kapis_receptionist.Billing.Subscriptions.{cancel, reactivate, by_user}
use kapis_receptionist.Rows.{trial_status}
use kapis_receptionist.Prelude.{◌+◌, ◌≡◌, refl, true, false, none, some, [], ◌∷◌, find}
use kapis_receptionist.Billing.Stripe.{
  plain_customer, invoice_paid, StripeStore, paid_word, invoice_event, WebhookLog, StripeEnv,
  StripeInvoice, StripeEvent, active_word,
}
use kapis_receptionist.Billing.Entitlement.{
  active, Subscription, find_subscription, trial_of, find_plan,
}
use kapis_receptionist.Billing.Subscriptions.{
  StripeSubscriptionSyncData, find_by_stripe_customer, apply_stripe_subscription_event,
}
use kapis_receptionist.Billing.Webhooks.{ingest, new_log}
use kapis_receptionist.Tests.Fixtures.{starter, owner_token}
use kapis_receptionist.Billing.StripeEvents.{StripeTexts, process, handle_invoice_event}
use kapis_receptionist.Prelude.Action.{ok}
use kapis_receptionist.Billing.Sync.{invoice_paid_resets, apply_twice}
use kapis_receptionist.Billing.Redelivery.{redelivery_ignored}
use kapis_receptionist.Billing.Outcome.{process-IsLogged, IsLogged}
use kapis_receptionist.Billing.Reactivation.{cancel-reactivate}

abbrev texts : StripeTexts
texts = record { unknown_invoice = λ n. n + 1000; to_upper_case = λ n. n }

abbrev stripe_env : StripeEnv
stripe_env = record {
  now = 100;
  new_id = 70;
  stripe_answers = true;
  stripe_customer = 8;
  checkout_url = none;
  log_is_written = true;
  job_is_queued = false;
}

abbrev paying : Subscription
paying = record (trial_of 0 50 1 starter) {
  stripe_customer_id = some 8;
  messages_used_current_period = 12;
}

abbrev bill : StripeInvoice
bill = record {
  id = some 5;
  customer = plain_customer 8;
  status = paid_word;
  amount_due = 10;
  amount_paid = 10;
  currency = 1;
  invoice_pdf = none;
  created = some 1;
  due_date = none;
}

abbrev bill_event : StripeEvent
bill_event = record { id = 40; body = invoice_event invoice_paid bill }

abbrev stored_log : WebhookLog
stored_log = new_log stripe_env 40 (some bill_event)

abbrev ledger : StripeStore
ledger = record {
  billing = record { plans = starter ∷ []; subscriptions = paying ∷ [] };
  tenants = record { id = 1; status = trial_status; suspended_at = none } ∷ [];
  coupons = [];
  invoices = [];
  payments = [];
  logs = stored_log ∷ [];
  jobs = [];
  dedup = [];
  audit = [];
}

abbrev synced_data : StripeSubscriptionSyncData
synced_data = record {
  stripe_subscription_id = 3;
  stripe_customer_id = 8;
  stripe_status = active_word;
  stripe_price_id = none;
  current_period_start = none;
  current_period_end = none;
  cancel_at_period_end = false;
  canceled_at = none;
}

redelivery_ignored_example :
    ingest stripe_env 1
      (some bill_event)
      (ingest stripe_env 0 (some bill_event) (record ledger { logs = [] })).1
    ≡ (ok tt, (ingest stripe_env 0 (some bill_event) (record ledger { logs = [] })).1)
redelivery_ignored_example =
    redelivery_ignored stripe_env stripe_env 0 1 bill_event (record ledger { logs = [] })

process-IsLogged_example : IsLogged 70 (process texts stripe_env 70 ledger)
unfolding find
process-IsLogged_example = process-IsLogged texts stripe_env 70 stored_log ledger refl

apply_twice_example :
    (apply_stripe_subscription_event synced_data
      (apply_stripe_subscription_event synced_data ledger).1).1.billing
    ≡ (apply_stripe_subscription_event synced_data ledger).1.billing
unfolding find_by_stripe_customer find_subscription
apply_twice_example = apply_twice synced_data ledger {existing = paying} refl refl

invoice_paid_resets_example :
    ((handle_invoice_event texts stripe_env 40 invoice_paid bill ledger).0 ≡ ok (some 1))
    × (find_subscription 1
          (handle_invoice_event texts stripe_env 40 invoice_paid bill
            ledger).1.billing.subscriptions
        ≡ some (record paying { messages_used_current_period = 0 }))
unfolding find_by_stripe_customer find_subscription
invoice_paid_resets_example =
    invoice_paid_resets texts stripe_env 40 8 bill ledger {local = paying} {row = paying} refl refl
      refl refl

abbrev subscribed : Subscription
subscribed = record paying { status = active; stripe_subscription_id = some 3 }

abbrev subscribed_ledger : StripeStore
subscribed_ledger = record ledger {
  billing = record { plans = starter ∷ []; subscriptions = subscribed ∷ [] };
}

cancel-reactivate_example :
    ((reactivate stripe_env 1 owner_token (cancel stripe_env 1 owner_token subscribed_ledger).1).0
      ≡ ok (by_user owner_token subscribed))
    × (find_subscription 1
          (reactivate stripe_env 1 owner_token
            (cancel stripe_env 1 owner_token subscribed_ledger).1).1.billing.subscriptions
        ≡ some (by_user owner_token subscribed))
unfolding find_subscription find_plan
cancel-reactivate_example =
    cancel-reactivate stripe_env 1 owner_token subscribed_ledger {row = subscribed} {plan = starter}
      refl refl refl refl refl refl refl
