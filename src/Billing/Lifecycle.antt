-- ===== src/Billing/Lifecycle.antt =====
-- backend/src/modules/tenants/application/tenant-lifecycle.service.ts and `updateStatus` of its
-- repository.
use kapis_receptionist.Prelude.{
  ℕ, Bool, true, false, not, Option, none, some, ◌==◌, if◌then◌else◌, find, update_where,
}
use kapis_receptionist.Prelude.Action.{throw, pure, or_throw, throw_if, gets, modify, ◌>>=◌, ◌>>◌}
use kapis_receptionist.Rows.{
  TenantStatus, trial_status, active_status, past_due_status, cancelled_status, suspended_status,
}
use kapis_receptionist.Billing.Stripe.{
  BillingAction, status_synced, tenant_reactivated, StripeEnv, tenant_suspended, BillingTenant,
  write_audit,
}
use kapis_receptionist.Billing.Entitlement.{
  unknown_tenant, invalid_lifecycle_transition, record_not_found,
}

abbrev pub same_status : TenantStatus → TenantStatus → Bool
same_status trial_status trial_status = true
same_status active_status active_status = true
same_status past_due_status past_due_status = true
same_status suspended_status suspended_status = true
same_status cancelled_status cancelled_status = true
same_status a b = false

abbrev pub is_billing_tenant : ℕ → BillingTenant → Bool
is_billing_tenant id t = t.id == id

unfoldable pub require_tenant : ℕ → BillingAction BillingTenant
unfolding ◌>>=◌ find
require_tenant id = do
  found ← gets (λ s. find (is_billing_tenant id) s.tenants)
  or_throw found unknown_tenant

-- `suspendedAt` is written where it is given.
abbrev pub with_suspended_at : Option (Option ℕ) → BillingTenant → BillingTenant
with_suspended_at none t = t
with_suspended_at (some v) t = record t { suspended_at = v }

abbrev pub with_status : TenantStatus → Option (Option ℕ) → BillingTenant → BillingTenant
with_status status extra t = record (with_suspended_at extra t) { status = status }

unfoldable pub update_status : ℕ → TenantStatus → Option (Option ℕ) → BillingAction BillingTenant
unfolding ◌>>=◌ find update_where
update_status id status extra = do
  found ← gets (λ s. find (is_billing_tenant id) s.tenants)
  row ← or_throw found record_not_found
  modify (λ s. record s {
    tenants = update_where (is_billing_tenant id) (with_status status extra) s.tenants;
  })
  pure (with_status status extra row)

abbrev pub suspend_tenant : StripeEnv → ℕ → ℕ → BillingTenant → BillingAction BillingTenant
suspend_tenant env id actor tenant = do
  updated ← update_status id suspended_status (some (some env.now))
  write_audit (tenant_suspended id actor tenant.status)
  pure updated

abbrev pub suspend_known : StripeEnv → ℕ → ℕ → BillingTenant → BillingAction BillingTenant
suspend_known env id actor tenant =
    if same_status tenant.status suspended_status
    then pure tenant
    else if same_status tenant.status cancelled_status
    then throw (invalid_lifecycle_transition tenant.status suspended_status)
    else suspend_tenant env id actor tenant

-- `suspend`; a tenant that is suspended already is returned as it is.
unfoldable pub suspend : StripeEnv → ℕ → ℕ → BillingAction BillingTenant
unfolding ◌>>=◌ require_tenant update_status write_audit
suspend env id actor = do tenant ← require_tenant id; suspend_known env id actor tenant

-- `reactivate`
unfoldable pub reactivate_tenant : ℕ → ℕ → BillingAction BillingTenant
unfolding ◌>>=◌ require_tenant update_status write_audit
reactivate_tenant id actor = do
  tenant ← require_tenant id
  throw_if (not (same_status tenant.status suspended_status))
      (invalid_lifecycle_transition tenant.status active_status)
  updated ← update_status id active_status (some none)
  write_audit (tenant_reactivated id actor tenant.status)
  pure updated

abbrev pub sync_known : ℕ → TenantStatus → BillingTenant → BillingAction BillingTenant
sync_known id status tenant =
    if same_status tenant.status status
    then pure tenant
    else update_status id status none >>= λ updated.
        write_audit (status_synced id tenant.status status) >> pure updated

-- `syncStatusFromBilling`; both of its callers pass no `extra`.
unfoldable pub sync_status_from_billing : ℕ → TenantStatus → BillingAction BillingTenant
unfolding ◌>>=◌ require_tenant update_status write_audit
sync_status_from_billing id status = do tenant ← require_tenant id; sync_known id status tenant
