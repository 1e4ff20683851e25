-- ===== src/Billing/Webhooks.antt =====
-- backend/src/modules/billing/application/webhook-ingestion.service.ts. A delivery has the event
-- of its body if the signature of the body is right.
use kapis_receptionist.Prelude.{
  ℕ, Bool, true, false, not, ◌||◌, Option, none, some, ◌∷◌, ◌==◌, if◌then◌else◌, any, includes,
}
use kapis_receptionist.Prelude.Action.{gets, modify, throw_if, ok, pure, throw, ◌>>=◌, ◌>>◌}
use kapis_receptionist.Billing.Stripe.{
  StripeEnv, StripeEvent, BillingAction, pending_log, WebhookLog,
}
use kapis_receptionist.Billing.Entitlement.{write_failed, invalid_signature}

-- `redis.set(key, '1', 'EX', ttl, 'NX')`, within the time to live: nil where the key is there.
abbrev pub acquire_dedup : ℕ → BillingAction Bool
acquire_dedup event_id s =
    if includes event_id s.dedup
    then (ok false, s)
    else (ok true, record s { dedup = event_id ∷ s.dedup })

abbrev pub has_event : ℕ → WebhookLog → Bool
has_event id l = l.provider_event_id == id

abbrev pub new_log : StripeEnv → ℕ → Option StripeEvent → WebhookLog
new_log env provider_event_id payload = record {
  id = env.new_id;
  provider_event_id = provider_event_id;
  payload = payload;
  tenant_id = none;
  processing_status = pending_log;
  processed_at = none;
  error_message = none;
}

-- `webhookLogs.create`; a provider's event is unique, and the database may fail.
unfoldable pub create_log : StripeEnv → WebhookLog → BillingAction WebhookLog
unfolding ◌>>=◌ any
create_log env row = do
  clash ← gets (λ s. any (has_event row.provider_event_id) s.logs)
  throw_if (clash || not env.log_is_written) write_failed
  modify (λ s. record s { logs = row ∷ s.logs })
  pure row

-- `stripeWebhookQueue.add`
unfoldable pub add_job : StripeEnv → ℕ → BillingAction (Unit {0})
unfolding ◌>>=◌
add_job env log_id = do
  throw_if (not env.job_is_queued) write_failed
  modify (λ s. record s { jobs = log_id ∷ s.jobs })

abbrev pub persist_event : StripeEnv → StripeEvent → BillingAction (Unit {0})
persist_event env event = do
  log ← create_log env (new_log env event.id (some event))
  add_job env log.id

abbrev pub persist_new : StripeEnv → StripeEvent → Bool → BillingAction (Unit {0})
persist_new env event existing = if existing then pure tt else persist_event env event

abbrev pub ingest_acquired : StripeEnv → StripeEvent → Bool → BillingAction (Unit {0})
ingest_acquired env event false = pure tt
ingest_acquired env event true = do
  existing ← gets (λ s. any (has_event event.id) s.logs)
  persist_new env event existing

-- `invalid-${randomUUID()}` is drawn from outside.
unfoldable pub ingest : StripeEnv → ℕ → Option StripeEvent → BillingAction (Unit {0})
unfolding ◌>>=◌ any includes create_log add_job
ingest env invalid_id none = do
  create_log env (new_log env invalid_id none)
  throw invalid_signature
ingest env invalid_id (some event) = do
  acquired ← acquire_dedup event.id
  ingest_acquired env event acquired
