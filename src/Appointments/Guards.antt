-- ===== src/Appointments/Guards.antt =====
-- The private checks of `AppointmentsService` in
-- backend/src/modules/appointments/application/appointments.service.ts, and its error mapping.
use kapis_receptionist.Prelude.{
  ℕ, ◌+◌, ◌*◌, Bool, true, false, not, ◌&&◌, ◌||◌, Option, none, some, List, [], ◌∷◌, ltb, leb,
  ◌==◌, if◌then◌else◌, any,
}
use kapis_receptionist.Rbac.{max_rank, role_rank, AccessTokenPayload, staff}
use kapis_receptionist.Appointments.World.{
  exclusion_violation, invalid_status_transition, invalid_customer_reference, staff_scope_forbidden,
  BookingError, AuditRow, AppointmentEntity, tenant_resource_not_found, billing_error,
  slot_no_longer_available, audit_write_failed,
}
use kapis_receptionist.Appointments.Repository.{
  count_for_tenant_in_range, find_by_id_for_tenant, Booking,
}
use kapis_receptionist.Prelude.Action.{
  ◌>>=◌, Result, or_throw, modify, ok, gets, Action, pure, throw, err, throw_if, ◌>>◌,
}
use kapis_receptionist.Directory.{find_employee_by_user, customers_by_ids, Employee}
use kapis_receptionist.Rows.{AppointmentStatus, pending, confirmed, Env}
use kapis_receptionist.Billing.Entitlement.{
  assert_within_limit, appointment_limit, BillingStore, BillingError,
}
use kapis_receptionist.Directory.Settings.{read_number_setting}
use kapis_receptionist.Scheduling.Months.{period_start, period_end}

pub data Warning : Type 0 where
  late_notice : ℕ → Warning  -- with the number of hours that its text names

-- `isStaffOnly`
abbrev pub is_staff_only : AccessTokenPayload → Bool
is_staff_only actor = leb (max_rank actor.roles) (role_rank staff)

abbrev pub owns : Option Employee → AppointmentEntity → Bool
owns none a = false
owns (some e) a = a.row.employee_id == e.id || any (λ l. l.employee_id == e.id) a.services

abbrev pub is_cancellable : AppointmentStatus → Bool
is_cancellable pending = true
is_cancellable confirmed = true
is_cancellable _ = false

abbrev pub is_empty : {A : Type 0} → List A → Bool
is_empty [] = true
is_empty (x ∷ xs) = false

-- A query or a computation that may throw, on the state as it is.
abbrev pub of_result : {S E A : Type 0} → Result E A → Action S E A
of_result (ok a) = pure a
of_result (err e) = throw e

-- An error of the entitlement service passes through.
abbrev pub billing_result : {A : Type 0} → Result BillingError A → Result BookingError A
billing_result (ok a) = ok a
billing_result (err e) = err (billing_error e)

module _ {K : Type 0} where
  unfoldable pub of_billing : {A : Type 0} → Action BillingStore BillingError A → Booking K A
  of_billing m w = (billing_result (m w.billing).0, record w { billing = (m w.billing).1 })

  -- `assertCancellableStatus`
  unfoldable pub assert_cancellable_status : AppointmentStatus → Booking K (Unit {0})
  unfolding throw_if
  assert_cancellable_status status =
      throw_if (not (is_cancellable status)) (invalid_status_transition status)

  unfoldable pub assert_customer_belongs_to_tenant : ℕ → ℕ → Booking K (Unit {0})
  unfolding customers_by_ids ◌>>=◌
  assert_customer_belongs_to_tenant tenant id = do
    found ← gets (λ w. customers_by_ids w.directory tenant (id ∷ []))
    throw_if (is_empty found) (invalid_customer_reference id)

  unfoldable pub assert_within_appointment_limit : Env → ℕ → ℕ → Booking K (Unit {0})
  unfolding count_for_tenant_in_range assert_within_limit period_start period_end of_billing ◌>>=◌
  assert_within_appointment_limit env tenant start_time = do
    current_count ←
        count_for_tenant_in_range tenant (period_start start_time) (period_end start_time)
    of_billing (assert_within_limit env tenant appointment_limit current_count)

  -- `hoursUntilStart < noticeHours`, with both sides in milliseconds.
  unfoldable pub build_late_notice_warnings : Env → ℕ → ℕ → Booking K (List Warning)
  unfolding read_number_setting ◌>>=◌
  build_late_notice_warnings env tenant start_time = do
    notice_hours ← gets (λ w.
        read_number_setting (w.directory.business_settings tenant) "cancellationNoticeHours" 24)
    pure (
        if ltb start_time (env.now + notice_hours * 3600000)
        then late_notice notice_hours ∷ []
        else [])

  unfoldable pub assert_staff_can_access :
      ℕ → AppointmentEntity → AccessTokenPayload → Booking K (Unit {0})
  unfolding find_employee_by_user max_rank any ◌>>=◌
  assert_staff_can_access tenant a actor = do
    employee ← gets (λ w. find_employee_by_user w.directory tenant actor.sub)
    throw_if (is_staff_only actor && not (owns employee a)) staff_scope_forbidden

  unfoldable pub get_appointment_for_tenant : ℕ → ℕ → Booking K AppointmentEntity
  unfolding find_by_id_for_tenant ◌>>=◌
  get_appointment_for_tenant tenant id = do
    found ← find_by_id_for_tenant tenant id
    or_throw found tenant_resource_not_found

  unfoldable pub get_appointment_for_actor :
      ℕ → ℕ → AccessTokenPayload → Booking K AppointmentEntity
  unfolding find_by_id_for_tenant assert_staff_can_access ◌>>=◌
  get_appointment_for_actor tenant id actor = do
    found ← find_by_id_for_tenant tenant id
    appointment ← or_throw found tenant_resource_not_found
    assert_staff_can_access tenant appointment actor
    pure appointment

  -- `auditLog.record`, an insert of its own
  unfoldable pub record_audit : AuditRow → Booking K (Unit {0})
  unfolding ◌>>=◌
  record_audit a = do
    accepted ← gets (λ w. w.audit_accepts a)
    throw_if (not accepted) audit_write_failed
    modify (λ w. record w { audit = a ∷ w.audit })

-- `catch (error) { if (isExclusionConstraintViolation(error)) throw ...; throw error; }`
abbrev pub conflict_error : BookingError → BookingError
conflict_error exclusion_violation = slot_no_longer_available none
conflict_error e = e

abbrev pub on_conflict : {A : Type 0} → Result BookingError A → Result BookingError A
on_conflict (ok a) = ok a
on_conflict (err e) = err (conflict_error e)

unfoldable pub with_conflict_handling : {K A : Type 0} → Booking K A → Booking K A
with_conflict_handling m w = (on_conflict (m w).0, (m w).1)
