-- ===== src/Billing/Outcome.antt =====
-- What a job leaves of its webhook log:
-- backend/src/modules/billing/application/stripe-event-processor.service.ts.
use kapis_receptionist.Prelude.Action.{◌>>=◌, Result, catch, err, ok}
use kapis_receptionist.Prelude.{
  find-updated, ℕ, ◌≡◌, refl, ap, subst, Option, none, some, arith, update_where, find-In, sym,
}
use kapis_receptionist.Billing.Processing.{HasLog, dispatch_payload-HasLog}
use kapis_receptionist.Billing.StripeEvents.{
  dispatch_payload, StripeTexts, process_log, processed_row, process, is_log, update_log_status,
}
use kapis_receptionist.Billing.Stripe.{
  StripeEnv, WebhookLog, processed_log, failed_log, StripeStore, WebhookStatus,
}
use kapis_receptionist.Billing.Entitlement.{BillingError}

-- The log says how the job ended.
abbrev pub IsOutcome : Result BillingError (Unit {0}) → WebhookLog → Type 0
IsOutcome (ok u) log = log.processing_status ≡ processed_log
IsOutcome (err e) log = (log.processing_status ≡ failed_log) × (log.error_message ≡ some e)

abbrev pub IsLogged : ℕ → Result BillingError (Unit {0}) × StripeStore → Type 0
IsLogged id (r, t) = (after : WebhookLog) × HasLog id after t × IsOutcome r after

module _ (x : StripeTexts) (env : StripeEnv) where
  update_log_status-found :
      (id : ℕ) (status : WebhookStatus) (tenant : Option ℕ) (e : Option BillingError)
      (log : WebhookLog) (u : StripeStore)
      → HasLog id log u
      → update_log_status x env id status tenant e u ≡ (
        ok tt,
        record u { logs = update_where (is_log id) (processed_row x env status tenant e) u.logs },
      )
  unfolding update_log_status
  update_log_status-found id status tenant e log u there = rw there refl

  updated-HasLog :
      (id : ℕ) (status : WebhookStatus) (tenant : Option ℕ) (e : Option BillingError)
      (log : WebhookLog) (u : StripeStore)
      → HasLog id log u
      → HasLog id (processed_row x env status tenant e log) (record u {
        logs = update_where (is_log id) (processed_row x env status tenant e) u.logs;
      })
  updated-HasLog id status tenant e log u there =
      find-updated (is_log id) (processed_row x env status tenant e) (λ y. refl) u.logs there

  process_log-IsLogged :
      (log : WebhookLog) (s : StripeStore) (d : Result BillingError (Option ℕ) × StripeStore)
      → HasLog log.id log s
      → dispatch_payload x env log.payload s ≡ d
      → IsLogged log.id (process_log x env log s)
  unfolding catch ◌>>=◌
  process_log-IsLogged log s (ok tenant, u) there e =
      let kept : HasLog log.id log u =
        subst (λ w. HasLog log.id log w) (ap (λ q. q.1) e)
          ((dispatch_payload-HasLog x env log.id log log.payload).at s there) in
      rw (e, update_log_status-found log.id processed_log tenant none log u kept)
        (_, updated-HasLog log.id processed_log tenant none log u kept, refl)
  process_log-IsLogged log s (err b, u) there e =
      let kept : HasLog log.id log u =
        subst (λ w. HasLog log.id log w) (ap (λ q. q.1) e)
          ((dispatch_payload-HasLog x env log.id log log.payload).at s there) in
      rw (e, update_log_status-found log.id failed_log none (some b) log u kept)
        (_, updated-HasLog log.id failed_log none (some b) log u kept, (refl, refl))

  -- A job of a stored webhook log leaves the log as processed if it returns, and as failed, with
  -- the error that it throws, if it throws.
  pub process-IsLogged :
      (id : ℕ) (log : WebhookLog) (s : StripeStore)
      → HasLog id log s
      → IsLogged id (process x env id s)
  unfolding process
  process-IsLogged id log s there =
      let (m, same) = find-In (is_log id) s.logs there in
      let here : log.id ≡ id = ground arith in
      rw there (
        subst (λ w. IsLogged w (process_log x env log s)) here
          (process_log-IsLogged log s _ (subst (λ w. HasLog w log s) (sym here) there) refl))
