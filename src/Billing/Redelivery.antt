-- ===== src/Billing/Redelivery.antt =====
-- A Stripe event that is delivered again:
-- backend/src/modules/billing/application/webhook-ingestion.service.ts.
use kapis_receptionist.Prelude.Action.{Keeps, ok, keeps_rules, Keeps-pure, Keeps-modify}
use kapis_receptionist.Prelude.{
  ℕ, ◌≡◌, refl, inl, inr, Bool, true, false, some, ◌∷◌, arith, Bool-cases, includes,
}
use kapis_receptionist.Billing.Stripe.{StripeEnv, WebhookLog, StripeEvent, StripeStore}
use kapis_receptionist.Billing.Webhooks.{ingest_acquired, ingest, create_log, add_job}

abbrev pub IsSeen : ℕ → StripeStore → Type 0
IsSeen id s = includes id s.dedup ≡ true

create_log-IsSeen :
    (id : ℕ) (env : StripeEnv) (row : WebhookLog) → Keeps (IsSeen id) (create_log env row)
unfolding create_log
create_log-IsSeen id env row = search (keeps_rules, Keeps-modify) depth 12

add_job-IsSeen : (id : ℕ) (env : StripeEnv) (log : ℕ) → Keeps (IsSeen id) (add_job env log)
unfolding add_job
add_job-IsSeen id env log = search (keeps_rules, Keeps-modify) depth 12

ingest_acquired-IsSeen :
    (id : ℕ) (env : StripeEnv) (event : StripeEvent) (b : Bool)
    → Keeps (IsSeen id) (ingest_acquired env event b)
ingest_acquired-IsSeen id env event false = Keeps-pure tt
ingest_acquired-IsSeen id env event true =
    search (keeps_rules, create_log-IsSeen, add_job-IsSeen) depth 12

ingest-IsSeen :
    (env : StripeEnv) (invalid : ℕ) (event : StripeEvent) (s : StripeStore)
    → IsSeen event.id (ingest env invalid (some event) s).1
unfolding ingest includes
ingest-IsSeen env invalid event s = elim (Bool-cases (includes event.id s.dedup)) [
  | inl e ↦ rw e e
  | inr e ↦ rw e (
      (ingest_acquired-IsSeen event.id env event true).at (record s { dedup = event.id ∷ s.dedup })
        (ground arith))
]

IsSeen-ignored :
    (env : StripeEnv) (invalid : ℕ) (event : StripeEvent) (s : StripeStore)
    → IsSeen event.id s
    → ingest env invalid (some event) s ≡ (ok tt, s)
unfolding ingest
IsSeen-ignored env invalid event s seen = rw seen refl

-- After a delivery of an event with a right signature, whether it was stored or threw before its
-- log or its job was written, a delivery of the same event within the time to live of its key
-- changes nothing: it writes no log and queues no job.
pub redelivery_ignored :
    (env env' : StripeEnv) (invalid invalid' : ℕ) (event : StripeEvent) (s : StripeStore)
    → ingest env' invalid' (some event) (ingest env invalid (some event) s).1
      ≡ (ok tt, (ingest env invalid (some event) s).1)
redelivery_ignored env env' invalid invalid' event s =
    IsSeen-ignored env' invalid' event _ (ingest-IsSeen env invalid event s)
