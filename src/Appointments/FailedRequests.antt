-- ===== src/Appointments/FailedRequests.antt =====
-- Requests to backend/src/modules/appointments/application/appointments.service.ts that throw.
use kapis_receptionist.Prelude.Action.{Keeps, keeps_rules, err}
use kapis_receptionist.Prelude.{ℕ, ◌≡◌, refl, subst, List, ◌≢◌}
use kapis_receptionist.Appointments.Requests.{
  ai_reschedule_request, delete_request, handle, create_request, ai_cancel_request, notes_request,
  cancel_request, reschedule_request, ai_create_request, Request,
}
use kapis_receptionist.Appointments.Kept.{
  Keeps-build_late_notice_warnings, Keeps-assert_customer_belongs_to_tenant,
  Keeps-get_appointment_for_tenant, Keeps-get_appointment_for_actor, Keeps-of_result,
  Keeps-check_windows,
}
use kapis_receptionist.Appointments.Locks.{with_employee_locks, release_locks, acquire_locks}
use kapis_receptionist.Appointments.World.{
  BookingError, World, AppointmentEntity, audit_write_failed,
}
use kapis_receptionist.Appointments.Service.{
  create_appointment, cancel_appointment_for_ai, cancel_appointment, RescheduleAppointmentRequest,
  Author, reschedule_as, reschedule_appointment, CreateAppointmentRequest, create_as,
  reschedule_appointment_for_ai, create_appointment_for_ai,
}
use kapis_receptionist.Appointments.AtomicWrites.{
  Atomic-update_appointment_notes, Atomic-delete_appointment, Atomic-move_booking, Atomic-cancel_as,
  Atomic-finally, Quiet-assert_within_appointment_limit, Atomic-insert_booking,
}
use kapis_receptionist.Appointments.Atomic.{
  Atomic-total, unaudited_rules, Atomic-bind, SameTables, Atomic, UnchangedOnError,
}
use kapis_receptionist.Rows.{Env}
use kapis_receptionist.Locking.Keyspace.{Redis}
use kapis_receptionist.Appointments.Tables.{LineInput}
use kapis_receptionist.Locking.{AcquiredLock}
use kapis_receptionist.Appointments.Repository.{Booking}

module _ {K : Type 0} ⦃r : Redis K⦄ where
  Quiet-acquire_locks :
      (env : Env) (tenant : ℕ) (ls : List LineInput) (w : World K)
      → Keeps (SameTables w) (acquire_locks env tenant ls)
  unfolding acquire_locks
  Quiet-acquire_locks env tenant ls w = record {
    at = λ v h. record {
      appointments = h.appointments;
      lines = h.lines;
      history = h.history;
      audit = h.audit;
    };
  }

  release_locks-same :
      (locks : List AcquiredLock) (w : World K) → SameTables w (release_locks locks w)
  release_locks-same locks w = record {
    appointments = refl;
    lines = refl;
    history = refl;
    audit = refl;
  }

  Atomic-with_employee_locks :
      {A : Type 0} (env : Env) (tenant : ℕ) (ls : List LineInput) (work : Booking K A)
      → Atomic work
      → Atomic (with_employee_locks env tenant ls work)
  unfolding with_employee_locks
  Atomic-with_employee_locks env tenant ls work k =
      search
        (Atomic-bind, Atomic-finally, release_locks-same, Quiet-acquire_locks, Keeps-check_windows)

  Atomic-create_as :
      (env : Env) (tenant : ℕ) (author : Author) (q : CreateAppointmentRequest)
      → Atomic {K = K} (create_as env tenant author q)
  unfolding create_as
  Atomic-create_as env tenant author q =
      search
        (
          keeps_rules, Atomic-bind, Keeps-assert_customer_belongs_to_tenant,
          Quiet-assert_within_appointment_limit, Keeps-of_result, Atomic-with_employee_locks,
          Atomic-insert_booking,
        )
        depth 20

  Atomic-reschedule_as :
      (env : Env) (tenant id : ℕ) (author : Author) (q : RescheduleAppointmentRequest)
      (a : AppointmentEntity)
      → Atomic {K = K} (reschedule_as env tenant id author q a)
  unfolding reschedule_as
  Atomic-reschedule_as env tenant id author q a =
      search
        (
          keeps_rules, Atomic-bind, Atomic-total, unaudited_rules, Keeps-build_late_notice_warnings,
          Keeps-of_result, Atomic-with_employee_locks, Atomic-move_booking,
        )
        depth 20

  Atomic-handle : (q : Request) → Atomic {K = K} (handle q)
  unfolding handle create_appointment create_appointment_for_ai cancel_appointment
      cancel_appointment_for_ai reschedule_appointment reschedule_appointment_for_ai
  Atomic-handle (create_request env tenant actor q) =
      search (Atomic-total, unaudited_rules, Atomic-create_as)
  Atomic-handle (ai_create_request env tenant q ai) =
      search (Atomic-total, unaudited_rules, Atomic-create_as)
  Atomic-handle (notes_request tenant id actor notes) =
      search (Atomic-total, unaudited_rules, Atomic-update_appointment_notes)
  Atomic-handle (cancel_request env tenant id actor reason) = search (
    Atomic-bind, Atomic-total, unaudited_rules, Keeps-get_appointment_for_actor, Atomic-cancel_as,
  )
  Atomic-handle (ai_cancel_request env tenant id reason ai) = search (
    Atomic-bind, Atomic-total, unaudited_rules, Keeps-get_appointment_for_tenant, Atomic-cancel_as,
  )
  Atomic-handle (reschedule_request env tenant id actor q) = search (
    Atomic-bind, Atomic-total, unaudited_rules, Keeps-get_appointment_for_actor,
    Atomic-reschedule_as,
  )
  Atomic-handle (ai_reschedule_request env tenant id q ai) = search (
    Atomic-bind, Atomic-total, unaudited_rules, Keeps-get_appointment_for_tenant,
    Atomic-reschedule_as,
  )
  Atomic-handle (delete_request env tenant id actor) = Atomic-delete_appointment env tenant id actor

  -- A request of any kind that throws, for whatever reason but that the insert of its audit row
  -- fails, leaves the appointments, their lines, their history and the audit log as they were.
  pub failed_request_writes_nothing :
      (q : Request) (w t : World K) (e : BookingError)
      → handle q w ≡ (err e, t)
      → e ≢ audit_write_failed
      → SameTables w t
  failed_request_writes_nothing q w t e h ne =
      subst (UnchangedOnError w) h ((Atomic-handle q).at w) ne
