-- ===== src/Appointments/Kept.antt =====
-- What the methods of backend/src/modules/appointments/application/appointments.service.ts keep,
-- whether they return or throw, from what their writes keep.
use kapis_receptionist.Prelude.Action.{
  Keeps, ok, keeps_rules, err, Result, Keeps-throw_if, Keeps-modify, Keeps-pure, Keeps-throw,
  Action, Keeps-bind, Keeps-gets, gets, throw_if,
}
use kapis_receptionist.Prelude.{ℕ, String, Option, none, some, List, [], ◌∷◌, not}
use kapis_receptionist.Appointments.Guards.{
  assert_staff_can_access, of_result, assert_customer_belongs_to_tenant, record_audit,
  get_appointment_for_tenant, with_conflict_handling, assert_within_appointment_limit, of_billing,
  build_late_notice_warnings, get_appointment_for_actor,
}
use kapis_receptionist.Appointments.Service.{
  insert_booking, update_appointment_notes, cancel_as, Author, CreateAppointmentRequest, on_input,
  delete_appointment, create_as, RescheduleAppointmentRequest, reschedule_as, move_booking,
}
use kapis_receptionist.Appointments.Locks.{
  finally, check_windows, with_employee_locks, is_line_available,
}
use kapis_receptionist.Appointments.World.{
  type_error, World, AppointmentEntity, BookingError, AuditRow, slot_no_longer_available,
}
use kapis_receptionist.Locking.Keyspace.{Redis}
use kapis_receptionist.Rbac.{AccessTokenPayload}
use kapis_receptionist.Billing.Entitlement.{BillingError, BillingStore}
use kapis_receptionist.Appointments.Repository.{
  find_by_id_for_tenant, Booking, count_for_tenant_in_range,
}
use kapis_receptionist.Appointments.Tables.{CreateAppointmentInput, LineInput}
use kapis_receptionist.Appointments.Writes.{
  Stable, Keeps-update_notes, Keeps-soft_delete, Keeps-cancel, Keeps-create, Keeps-reschedule,
}
use kapis_receptionist.Rows.{Env}

module _ {K : Type 0} {P : World K → Type 0} where
  pub Keeps-of_result : {A : Type 0} (r : Result BookingError A) → Keeps P (of_result r)
  Keeps-of_result (ok a) = Keeps-pure a
  Keeps-of_result (err e) = Keeps-throw e

  pub Keeps-with_conflict_handling :
      {A : Type 0} (m : Booking K A) → Keeps P m → Keeps P (with_conflict_handling m)
  unfolding with_conflict_handling
  Keeps-with_conflict_handling m k = record { at = k.at }

  pub Keeps-finally :
      {A : Type 0} (m : Booking K A) (f : World K → World K)
      → Keeps P m
      → ((w : World K) → P w → P (f w))
      → Keeps P (finally m f)
  unfolding finally
  Keeps-finally m f k kf = record { at = λ w h. kf _ (k.at w h) }

  pub Keeps-check_windows : (tenant : ℕ) (ls : List LineInput) → Keeps P (check_windows tenant ls)
  unfolding check_windows
  Keeps-check_windows tenant [] = Keeps-pure tt
  Keeps-check_windows tenant (l ∷ ls) =
      Keeps-bind (gets (λ w. is_line_available w tenant l)) _ (Keeps-gets _) λ b.
        Keeps-bind (throw_if (not b) (slot_no_longer_available (some l.employee_id))) _
          (Keeps-throw_if _ _) λ u. Keeps-check_windows tenant ls

  pub Keeps-get_appointment_for_tenant :
      (tenant id : ℕ) → Keeps P (get_appointment_for_tenant tenant id)
  unfolding get_appointment_for_tenant find_by_id_for_tenant
  Keeps-get_appointment_for_tenant tenant id = search keeps_rules

  pub Keeps-get_appointment_for_actor :
      (tenant id : ℕ) (actor : AccessTokenPayload)
      → Keeps P (get_appointment_for_actor tenant id actor)
  unfolding get_appointment_for_actor find_by_id_for_tenant assert_staff_can_access
  Keeps-get_appointment_for_actor tenant id actor = search keeps_rules depth 12

  pub Keeps-assert_customer_belongs_to_tenant :
      (tenant id : ℕ) → Keeps P (assert_customer_belongs_to_tenant tenant id)
  unfolding assert_customer_belongs_to_tenant
  Keeps-assert_customer_belongs_to_tenant tenant id = search keeps_rules

  pub Keeps-build_late_notice_warnings :
      (env : Env) (tenant start : ℕ) → Keeps P (build_late_notice_warnings env tenant start)
  unfolding build_late_notice_warnings
  Keeps-build_late_notice_warnings env tenant start = search keeps_rules

  pub Keeps-on_input :
      {A : Type 0} (author : Author) (customer : ℕ) (notes : Option String) (ls : List LineInput)
      (work : CreateAppointmentInput → Booking K A)
      → ((i : CreateAppointmentInput) → Keeps P (work i))
      → Keeps P (on_input author customer notes ls work)
  Keeps-on_input author customer notes [] work k = Keeps-throw type_error
  Keeps-on_input author customer notes (l ∷ ls) work k = k _

module _ {K : Type 0} {P : World K → Type 0} (st : Stable P) where
  pub Keeps-of_billing :
      {A : Type 0} (m : Action BillingStore BillingError A) → Keeps P (of_billing m)
  unfolding of_billing
  Keeps-of_billing m = record { at = λ w h. st.billing w _ h }

  pub Keeps-record_audit : (a : AuditRow) → Keeps P (record_audit a)
  unfolding record_audit
  Keeps-record_audit a = search (keeps_rules, Keeps-modify, st.audit)

  pub Keeps-assert_within_appointment_limit :
      (env : Env) (tenant start : ℕ) → Keeps P (assert_within_appointment_limit env tenant start)
  unfolding assert_within_appointment_limit count_for_tenant_in_range
  Keeps-assert_within_appointment_limit env tenant start = search (keeps_rules, Keeps-of_billing)

  pub Keeps-cancel_as :
      (env : Env) (tenant id : ℕ) (author : Author) (reason : Option String) (a : AppointmentEntity)
      → Keeps P (cancel_as env tenant id author reason a)
  unfolding cancel_as
  Keeps-cancel_as env tenant id author reason a =
      search (keeps_rules, Keeps-build_late_notice_warnings, Keeps-cancel, Keeps-record_audit) depth
        16

  pub Keeps-update_appointment_notes :
      (tenant id : ℕ) (actor : AccessTokenPayload) (notes : Option String)
      → Keeps P (update_appointment_notes tenant id actor notes)
  unfolding update_appointment_notes
  Keeps-update_appointment_notes tenant id actor none = Keeps-throw _
  Keeps-update_appointment_notes tenant id actor (some notes) =
      search (keeps_rules, Keeps-get_appointment_for_actor, Keeps-update_notes, Keeps-record_audit)
        depth 12

  pub Keeps-delete_appointment :
      (env : Env) (tenant id : ℕ) (actor : AccessTokenPayload)
      → Keeps P (delete_appointment env tenant id actor)
  unfolding delete_appointment
  Keeps-delete_appointment env tenant id actor =
      search (keeps_rules, Keeps-get_appointment_for_tenant, Keeps-soft_delete, Keeps-record_audit)
        depth 12

  pub Keeps-insert_booking :
      (env : Env) (tenant : ℕ) (author : Author) (q : CreateAppointmentRequest)
      (ls : List LineInput)
      → Keeps P (insert_booking env tenant author q ls)
  unfolding insert_booking
  Keeps-insert_booking env tenant author q ls =
      search
        (
          keeps_rules, Keeps-on_input, Keeps-with_conflict_handling, Keeps-create,
          Keeps-record_audit,
        )
        depth 12

  pub Keeps-move_booking :
      (env : Env) (tenant id : ℕ) (author : Author) (a : AppointmentEntity) (ls : List LineInput)
      → Keeps P (move_booking env tenant id author a ls)
  unfolding move_booking
  Keeps-move_booking env tenant id author a ls =
      search (Keeps-on_input, Keeps-with_conflict_handling, Keeps-reschedule)

-- With what the work under the locks keeps, the keyspace included.
module _ {K : Type 0} ⦃r : Redis K⦄ {P : World K → Type 0} (st : Stable P) (env : Env)
    (tenant : ℕ) where
  pub Keeps-create_as :
      (author : Author) (q : CreateAppointmentRequest)
      → ((ls : List LineInput)
          → Keeps P (with_employee_locks env tenant ls (insert_booking env tenant author q ls)))
      → Keeps P (create_as env tenant author q)
  unfolding create_as
  Keeps-create_as author q locked =
      search
        (
          keeps_rules, Keeps-assert_customer_belongs_to_tenant,
          Keeps-assert_within_appointment_limit, Keeps-of_result, locked,
        )
        depth 20

  pub Keeps-reschedule_as :
      (id : ℕ) (author : Author) (q : RescheduleAppointmentRequest) (a : AppointmentEntity)
      → ((ls : List LineInput)
          → Keeps P (with_employee_locks env tenant ls (move_booking env tenant id author a ls)))
      → Keeps P (reschedule_as env tenant id author q a)
  unfolding reschedule_as
  Keeps-reschedule_as id author q a locked =
      search
        (keeps_rules, Keeps-build_late_notice_warnings, Keeps-of_result, locked, Keeps-record_audit)
        depth 30
