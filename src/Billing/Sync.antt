-- ===== src/Billing/Sync.antt =====
-- What Stripe's events do to the stored subscription:
-- backend/src/modules/billing/application/subscriptions.service.ts and
-- stripe-event-processor.service.ts.
use kapis_receptionist.Prelude.Action.{Keeps, ok, Keeps-modify, keeps_rules, Keeps-pure, ◌>>=◌}
use kapis_receptionist.Prelude.{
  find-updated, ℕ, ◌≡◌, refl, ap, Option, none, some, List, ◌==◌, update_where, find-update_where,
  ◌∷◌, get_or, is_key, arith, update_where-twice, ◌∙◌,
}
use kapis_receptionist.Billing.Lifecycle.{sync_status_from_billing, require_tenant, update_status}
use kapis_receptionist.Billing.Stripe.{
  on_billing, StripeEnv, invoice_paid, write_audit, StripeInvoice, StripeStore, paid_invoice,
  InvoiceRow, synced_from_stripe,
}
use kapis_receptionist.Billing.StripeEvents.{
  customer_id_of, stripe_invoice_status, reset_period_usage, StripeTexts,
  upsert_by_stripe_invoice_id, handle_invoice_event,
}
use kapis_receptionist.Billing.Subscriptions.{
  sync_tenant, update_subscription, StripeSubscriptionSyncData, find_by_stripe_customer,
  stripe_status_map, find_by_stripe_price, synced_plan, tenant_status_of, synced_row,
  apply_stripe_subscription_event, apply_to, plan_id_or,
}
use kapis_receptionist.Billing.Entitlement.{
  find_subscription, has_tenant, update_by_tenant_id, Subscription, BillingStore,
  SubscriptionStatus, Plan,
}
use kapis_receptionist.Rows.{TenantStatus}

pub find_subscription-changed :
    (tenant : ℕ) (f : Subscription → Subscription) (ss : List Subscription) {row : Subscription}
    → ((s : Subscription) → (f s).tenant_id ≡ s.tenant_id)
    → find_subscription tenant ss ≡ some row
    → find_subscription tenant (update_where (has_tenant tenant) f ss) ≡ some (f row)
unfolding find_subscription
find_subscription-changed tenant f ss same there =
    find-updated (has_tenant tenant) f (λ s. ap (λ t. t == tenant) (same s)) ss there

abbrev pub changed : ℕ → (Subscription → Subscription) → StripeStore → StripeStore
changed tenant f s = record s {
  billing = record (s.billing) {
    subscriptions = update_where (has_tenant tenant) f s.billing.subscriptions;
  };
}

pub update_subscription-changed :
    (tenant : ℕ) (f : Subscription → Subscription) (s : StripeStore) {row : Subscription}
    → find_subscription tenant s.billing.subscriptions ≡ some row
    → update_subscription tenant f s ≡ (ok (f row), changed tenant f s)
unfolding update_subscription update_by_tenant_id on_billing
update_subscription-changed tenant f s there = rw there refl

abbrev zeroed_row : Subscription → Subscription
zeroed_row w = record w { messages_used_current_period = 0 }

reset_period_usage-changed :
    (tenant : ℕ) (s : StripeStore) (invoices : List InvoiceRow) {row : Subscription}
    → find_subscription tenant s.billing.subscriptions ≡ some row
    → reset_period_usage tenant (record s { invoices = invoices })
      ≡ (ok tt, changed tenant zeroed_row (record s { invoices = invoices }))
unfolding reset_period_usage
reset_period_usage-changed tenant s invoices there =
    rw (update_subscription-changed tenant zeroed_row (record s { invoices = invoices }) there) refl

-- A redelivered `invoice.paid` of a paid invoice sets the message counter of the customer's tenant
-- to zero, whatever was counted since the first delivery.
pub invoice_paid_resets :
    (x : StripeTexts) (env : StripeEnv) (event customer : ℕ) (invoice : StripeInvoice)
    (s : StripeStore) {local row : Subscription}
    → customer_id_of invoice.customer ≡ some customer
    → stripe_invoice_status invoice.status ≡ paid_invoice
    → find_by_stripe_customer customer s.billing.subscriptions ≡ some local
    → find_subscription local.tenant_id s.billing.subscriptions ≡ some row
    → ((handle_invoice_event x env event invoice_paid invoice s).0 ≡ ok (some local.tenant_id))
      × (find_subscription local.tenant_id
            (handle_invoice_event x env event invoice_paid invoice s).1.billing.subscriptions
          ≡ some (record row { messages_used_current_period = 0 }))
unfolding handle_invoice_event upsert_by_stripe_invoice_id
invoice_paid_resets x env event customer invoice s {local} {row} who paid found there =
    rw (who, found, paid, reset_period_usage-changed local.tenant_id s _ there)
      (
        refl,
        find_subscription-changed local.tenant_id zeroed_row s.billing.subscriptions (λ w. refl)
            there,
      )

module _ (sync : StripeSubscriptionSyncData) where
  sync_tenant-billing :
      (b : BillingStore) (tenant : ℕ) (o : Option TenantStatus)
      → Keeps (λ s. s.billing ≡ b) (sync_tenant tenant o)
  unfolding sync_status_from_billing require_tenant update_status write_audit
  sync_tenant-billing b tenant none = Keeps-pure tt
  sync_tenant-billing b tenant (some status) = search (keeps_rules, Keeps-modify) depth 20

  abbrev synced : StripeStore → Subscription → Subscription → Subscription
  synced s existing =
      synced_row sync (synced_plan sync.stripe_price_id existing.plan_id s.billing.plans)
        (get_or (stripe_status_map sync.stripe_status) existing.status)

  apply_to-billing :
      (s : StripeStore) (existing : Subscription) {row : Subscription}
      → find_subscription existing.tenant_id s.billing.subscriptions ≡ some row
      → (apply_to sync (some existing) s).1.billing
        ≡ (changed existing.tenant_id (synced s existing) s).billing
  unfolding write_audit ◌>>=◌
  apply_to-billing s existing there =
      rw (update_subscription-changed existing.tenant_id (synced s existing) s there) (
        (sync_tenant-billing (changed existing.tenant_id (synced s existing) s).billing
            existing.tenant_id (tenant_status_of (stripe_status_map sync.stripe_status))).at
          (record (changed existing.tenant_id (synced s existing) s) {
            audit = synced_from_stripe existing.tenant_id sync.stripe_status ∷ s.audit;
          })
          refl)

  apply-billing :
      (s : StripeStore) {existing row : Subscription}
      → find_by_stripe_customer sync.stripe_customer_id s.billing.subscriptions ≡ some existing
      → find_subscription existing.tenant_id s.billing.subscriptions ≡ some row
      → (apply_stripe_subscription_event sync s).1.billing
        ≡ (changed existing.tenant_id (synced s existing) s).billing
  unfolding apply_stripe_subscription_event
  apply-billing s {existing} found there = rw found (apply_to-billing s existing there)

  plan_id_or-twice : (o : Option Plan) (id : ℕ) → plan_id_or o (plan_id_or o id) ≡ plan_id_or o id
  plan_id_or-twice none id = refl
  plan_id_or-twice (some p) id = refl

  synced_plan-twice :
      (price : Option ℕ) (id : ℕ) (plans : List Plan)
      → synced_plan price (synced_plan price id plans) plans ≡ synced_plan price id plans
  synced_plan-twice none id plans = refl
  synced_plan-twice (some price) id plans = plan_id_or-twice (find_by_stripe_price price plans) id

  get_or-twice :
      (o : Option SubscriptionStatus) (d : SubscriptionStatus) → get_or o (get_or o d) ≡ get_or o d
  get_or-twice none d = refl
  get_or-twice (some a) d = refl

  find_by_stripe_customer-synced :
      (customer tenant : ℕ) (plan : ℕ) (status : SubscriptionStatus) (ss : List Subscription)
      {existing : Subscription}
      → find_by_stripe_customer customer ss ≡ some existing
      → existing.tenant_id ≡ tenant
      → find_by_stripe_customer customer
          (update_where (has_tenant tenant) (synced_row sync plan status) ss)
        ≡ some (synced_row sync plan status existing)
  unfolding find_by_stripe_customer
  find_by_stripe_customer-synced customer tenant plan status ss {existing} found same =
      let one =
        find-update_where (λ w. is_key w.stripe_customer_id customer) (has_tenant tenant)
          (synced_row sync plan status) (λ w. refl) ss found in
      ground arith

  apply_again-billing :
      (t : StripeStore) (tenant plan : ℕ) (status : SubscriptionStatus) (ss : List Subscription)
      {existing row : Subscription}
      → find_by_stripe_customer sync.stripe_customer_id ss ≡ some existing
      → existing.tenant_id ≡ tenant
      → find_subscription tenant ss ≡ some row
      → t.billing.subscriptions ≡ update_where (has_tenant tenant) (synced_row sync plan status) ss
      → synced_plan sync.stripe_price_id plan t.billing.plans ≡ plan
      → get_or (stripe_status_map sync.stripe_status) status ≡ status
      → (apply_stripe_subscription_event sync t).1.billing ≡ t.billing
  apply_again-billing t tenant plan status ss {existing} {row} found same there e p q =
      let again =
        find_by_stripe_customer-synced sync.stripe_customer_id tenant plan status ss found same in
      let here =
        find_subscription-changed tenant (synced_row sync plan status) ss (λ w. refl) there in
      apply-billing t {existing = synced_row sync plan status existing}
        {row = synced_row sync plan status row} (rw e again) (rw (e, same) here)
      ∙ rw
          (
            p,
            q,
            same,
            e,
            update_where-twice (has_tenant tenant) (synced_row sync plan status)
                (synced_row sync plan status) (λ w. refl) (λ w. refl) ss,
          )
          refl

  -- A subscription event that Stripe delivers twice leaves plans and subscriptions as one delivery
  -- does, for a customer whose subscription is the one of its tenant.
  pub apply_twice :
      (s : StripeStore) {existing : Subscription}
      → find_by_stripe_customer sync.stripe_customer_id s.billing.subscriptions ≡ some existing
      → find_subscription existing.tenant_id s.billing.subscriptions ≡ some existing
      → (apply_stripe_subscription_event sync (apply_stripe_subscription_event sync s).1).1.billing
        ≡ (apply_stripe_subscription_event sync s).1.billing
  apply_twice s {existing} found there =
      let once = apply-billing s found there in
      apply_again-billing (apply_stripe_subscription_event sync s).1 existing.tenant_id
        (synced_plan sync.stripe_price_id existing.plan_id s.billing.plans)
        (get_or (stripe_status_map sync.stripe_status) existing.status) s.billing.subscriptions
        found refl there (ap (λ b. b.subscriptions) once)
        (rw once (synced_plan-twice sync.stripe_price_id existing.plan_id s.billing.plans))
        (get_or-twice (stripe_status_map sync.stripe_status) existing.status)
