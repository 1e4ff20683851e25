-- ===== src/Appointments/NoPlan.antt =====
-- Bookings of a tenant on a platform without an active plan: the gate of
-- backend/src/modules/billing/application/entitlement.service.ts, as
-- backend/src/modules/appointments/application/appointments.service.ts calls it.
use kapis_receptionist.Prelude.Action.{err, ok, gets, ◌>>=◌, ◌>>◌, >>=-ok, >>=-err}
use kapis_receptionist.Prelude.{ℕ, ◌≡◌, refl, false, none, [], ◌∷◌, ◌∙◌}
use kapis_receptionist.Appointments.Service.{
  create_appointment, CreateAppointmentRequest, person, insert_booking,
}
use kapis_receptionist.Appointments.Guards.{
  is_empty, assert_within_appointment_limit, assert_customer_belongs_to_tenant, of_result,
  of_billing,
}
use kapis_receptionist.Billing.Entitlement.{
  find_default, EntitlementFeature, assert_within_limit, BillingStore, appointment_limit,
  find_subscription, no_default_plan_configured,
}
use kapis_receptionist.Rbac.{AccessTokenPayload}
use kapis_receptionist.Locking.Keyspace.{Redis}
use kapis_receptionist.Appointments.World.{billing_error, World, AppointmentEntity}
use kapis_receptionist.Directory.{customers_by_ids}
use kapis_receptionist.Rows.{Env}
use kapis_receptionist.Billing.Entitlement.Limits.{get_or_create_for_tenant_no_plan}
use kapis_receptionist.Appointments.Lines.{build_lines}
use kapis_receptionist.Appointments.Locks.{with_employee_locks}
use kapis_receptionist.Appointments.Repository.{Booking}

assert_within_limit-no_plan :
    (env : Env) (tenant : ℕ) (feature : EntitlementFeature) (usage : ℕ) (b : BillingStore)
    → find_subscription tenant b.subscriptions ≡ none
    → find_default b.plans ≡ none
    → assert_within_limit env tenant feature usage b ≡ (err no_default_plan_configured, b)
unfolding assert_within_limit
assert_within_limit-no_plan env tenant feature usage b f p =
    let refusal = get_or_create_for_tenant_no_plan env tenant b f p in rw refusal refl

module _ {K : Type 0} where
  assert_customer_belongs_to_tenant-found :
      (tenant id : ℕ) (w : World K)
      → is_empty (customers_by_ids w.directory tenant (id ∷ [])) ≡ false
      → assert_customer_belongs_to_tenant tenant id w ≡ (ok tt, w)
  unfolding assert_customer_belongs_to_tenant
  assert_customer_belongs_to_tenant-found tenant id w h = rw h refl

  gate-no_plan :
      (env : Env) (tenant usage : ℕ) (w : World K)
      → find_subscription tenant w.billing.subscriptions ≡ none
      → find_default w.billing.plans ≡ none
      → of_billing (assert_within_limit env tenant appointment_limit usage) w
        ≡ (err (billing_error no_default_plan_configured), w)
  unfolding of_billing
  gate-no_plan env tenant usage w f p =
      rw (assert_within_limit-no_plan env tenant appointment_limit usage w.billing f p) refl

  assert_within_appointment_limit-no_plan :
      (env : Env) (tenant start : ℕ) (w : World K)
      → find_subscription tenant w.billing.subscriptions ≡ none
      → find_default w.billing.plans ≡ none
      → assert_within_appointment_limit env tenant start w
        ≡ (err (billing_error no_default_plan_configured), w)
  unfolding assert_within_appointment_limit
  assert_within_appointment_limit-no_plan env tenant start w f p = gate-no_plan env tenant _ w f p

module _ {K : Type 0} ⦃r : Redis K⦄ where
  -- For a customer of the tenant, a booking throws and changes nothing if the tenant has no
  -- subscription and no plan is active, whatever was asked for.
  pub create_appointment_no_plan :
      (env : Env) (tenant : ℕ) (actor : AccessTokenPayload) (q : CreateAppointmentRequest)
      (w : World K)
      → is_empty (customers_by_ids w.directory tenant (q.customer_id ∷ [])) ≡ false
      → find_subscription tenant w.billing.subscriptions ≡ none
      → find_default w.billing.plans ≡ none
      → create_appointment env tenant actor q w
        ≡ (err (billing_error no_default_plan_configured), w)
  unfolding create_appointment
  create_appointment_no_plan env tenant actor q w c f p =
      let rest : Booking K AppointmentEntity =
        gets (λ v. build_lines v.directory tenant q.start_time q.services) >>= λ built.
        of_result built >>= λ lines.
        with_employee_locks env tenant lines (insert_booking env tenant (person actor) q lines) in
      >>=-ok (assert_customer_belongs_to_tenant tenant q.customer_id)
        (λ u. assert_within_appointment_limit env tenant q.start_time >> rest) w
        (assert_customer_belongs_to_tenant-found tenant q.customer_id w c)
      ∙ >>=-err (assert_within_appointment_limit env tenant q.start_time) (λ u. rest) w
          (assert_within_appointment_limit-no_plan env tenant q.start_time w f p)
