-- ===== src/Appointments/AtomicWrites.antt =====
-- Calls that throw, by method: the writes of
-- backend/src/modules/appointments/infrastructure/prisma-appointment.repository.ts and what runs
-- under the locks.
use kapis_receptionist.Prelude.Action.{Keeps, Action, Result, keeps_rules, Keeps-throw, err, ok}
use kapis_receptionist.Prelude.{ℕ, String, Option, none, some, List, [], ◌∷◌, ap}
use kapis_receptionist.Appointments.Kept.{
  Keeps-build_late_notice_warnings, Keeps-get_appointment_for_tenant,
  Keeps-get_appointment_for_actor,
}
use kapis_receptionist.Appointments.Guards.{
  on_conflict, with_conflict_handling, of_billing, assert_cancellable_status,
  assert_within_appointment_limit, conflict_error,
}
use kapis_receptionist.Appointments.World.{
  type_error, BookingError, World, AppointmentEntity, HistoryAction,
}
use kapis_receptionist.Appointments.Repository.{
  create, cancel, update_notes, count_for_tenant_in_range, soft_delete, reschedule, Booking,
  update_appointment,
}
use kapis_receptionist.Appointments.Locks.{finally}
use kapis_receptionist.Rbac.{AccessTokenPayload}
use kapis_receptionist.Appointments.Atomic.{
  Atomic-total, unaudited_rules, Atomic-bind, SameTables, Atomic, SameTables-trans,
  Atomic-transaction, UnchangedOnError, Quiet-Atomic,
}
use kapis_receptionist.Appointments.Service.{
  on_input, delete_appointment, insert_booking, cancel_as, update_appointment_notes, move_booking,
  Author, CreateAppointmentRequest,
}
use kapis_receptionist.Rows.{Env, AppointmentStatus, AppointmentRow, ActorType}
use kapis_receptionist.Appointments.Tables.{LineInput, CreateAppointmentInput}
use kapis_receptionist.Billing.Entitlement.{BillingError, BillingStore}

module _ {K : Type 0} where
  conflict_kept :
      {A : Type 0} (w : World K) (o : Result BookingError A × World K)
      → UnchangedOnError w o
      → UnchangedOnError w (on_conflict o.0, o.1)
  conflict_kept w (ok a, v) h = tt
  conflict_kept w (err e, v) h = λ ne. h (λ p. ne (ap conflict_error p))

  pub Atomic-with_conflict_handling :
      {A : Type 0} (m : Booking K A) → Atomic m → Atomic (with_conflict_handling m)
  unfolding with_conflict_handling
  Atomic-with_conflict_handling m k = record { at = λ w. conflict_kept w (m w) (k.at w) }

  pub Atomic-on_input :
      {A : Type 0} (author : Author) (customer : ℕ) (notes : Option String) (ls : List LineInput)
      (work : CreateAppointmentInput → Booking K A)
      → ((i : CreateAppointmentInput) → Atomic (work i))
      → Atomic (on_input author customer notes ls work)
  Atomic-on_input author customer notes [] work k = Quiet-Atomic _ λ w. Keeps-throw type_error
  Atomic-on_input author customer notes (l ∷ ls) work k = k _

  finally_kept :
      {A : Type 0} (f : World K → World K) (w : World K) (o : Result BookingError A × World K)
      → ((v : World K) → SameTables v (f v))
      → UnchangedOnError w o
      → UnchangedOnError w (o.0, f o.1)
  finally_kept f w (ok a, v) same h = tt
  finally_kept f w (err e, v) same h = λ ne. SameTables-trans w v _ (h ne) (same v)

  pub Atomic-finally :
      {A : Type 0} (m : Booking K A) (f : World K → World K)
      → ((v : World K) → SameTables v (f v))
      → Atomic m
      → Atomic (finally m f)
  unfolding finally
  Atomic-finally m f same k = record { at = λ w. finally_kept f w (m w) same (k.at w) }

  pub Keeps-of_billing_tables :
      {A : Type 0} (w : World K) (m : Action BillingStore BillingError A)
      → Keeps (SameTables w) (of_billing m)
  unfolding of_billing
  Keeps-of_billing_tables w m = record {
    at = λ v h. record {
      appointments = h.appointments;
      lines = h.lines;
      history = h.history;
      audit = h.audit;
    };
  }

  pub Quiet-assert_within_appointment_limit :
      (env : Env) (tenant start : ℕ) (w : World K)
      → Keeps (SameTables w) (assert_within_appointment_limit env tenant start)
  unfolding assert_within_appointment_limit count_for_tenant_in_range
  Quiet-assert_within_appointment_limit env tenant start w =
      search (keeps_rules, Keeps-of_billing_tables)

  pub Quiet-assert_cancellable_status :
      (s : AppointmentStatus) (w : World K) → Keeps (SameTables w) (assert_cancellable_status s)
  unfolding assert_cancellable_status
  Quiet-assert_cancellable_status s w = search keeps_rules

  pub Atomic-cancel :
      (env : Env) (tenant id : ℕ) (reason : Option String) (t : ActorType) (a : Option ℕ)
      → Atomic {K = K} (cancel env tenant id reason t a)
  unfolding cancel
  Atomic-cancel env tenant id reason t a = Atomic-transaction _

  pub Atomic-create :
      (env : Env) (tenant : ℕ) (i : CreateAppointmentInput) (a : HistoryAction)
      → Atomic {K = K} (create env tenant i a)
  unfolding create
  Atomic-create env tenant i a = Atomic-transaction _

  pub Atomic-reschedule :
      (env : Env) (tenant id : ℕ) (i : CreateAppointmentInput)
      → Atomic {K = K} (reschedule env tenant id i)
  unfolding reschedule
  Atomic-reschedule env tenant id i = Atomic-transaction _

  pub Atomic-cancel_as :
      (env : Env) (tenant id : ℕ) (author : Author) (reason : Option String) (a : AppointmentEntity)
      → Atomic {K = K} (cancel_as env tenant id author reason a)
  unfolding cancel_as
  Atomic-cancel_as env tenant id author reason a = search (
    Atomic-bind, Atomic-total, unaudited_rules, Atomic-cancel, Quiet-assert_cancellable_status,
    Keeps-build_late_notice_warnings,
  )

  pub Atomic-insert_booking :
      (env : Env) (tenant : ℕ) (author : Author) (q : CreateAppointmentRequest)
      (ls : List LineInput)
      → Atomic {K = K} (insert_booking env tenant author q ls)
  unfolding insert_booking
  Atomic-insert_booking env tenant author q ls =
      search (
        Atomic-total, unaudited_rules, Atomic-on_input, Atomic-with_conflict_handling,
        Atomic-create,
      )

  pub Atomic-move_booking :
      (env : Env) (tenant id : ℕ) (author : Author) (a : AppointmentEntity) (ls : List LineInput)
      → Atomic {K = K} (move_booking env tenant id author a ls)
  unfolding move_booking
  Atomic-move_booking env tenant id author a ls =
      search (Atomic-on_input, Atomic-with_conflict_handling, Atomic-reschedule)

  pub Atomic-update_appointment :
      (tenant id : ℕ) (f : AppointmentRow → AppointmentRow)
      → Atomic {K = K} (update_appointment tenant id f)
  unfolding update_appointment
  Atomic-update_appointment tenant id f =
      search (keeps_rules, Atomic-bind, Atomic-total, unaudited_rules, Quiet-Atomic)

  pub Atomic-update_notes :
      (tenant id : ℕ) (notes : String) → Atomic {K = K} (update_notes tenant id notes)
  unfolding update_notes
  Atomic-update_notes tenant id notes =
      search (Atomic-total, unaudited_rules, Atomic-update_appointment)

  pub Atomic-update_appointment_notes :
      (tenant id : ℕ) (actor : AccessTokenPayload) (notes : Option String)
      → Atomic {K = K} (update_appointment_notes tenant id actor notes)
  unfolding update_appointment_notes
  Atomic-update_appointment_notes tenant id actor none = Quiet-Atomic _ λ w. Keeps-throw _
  Atomic-update_appointment_notes tenant id actor (some notes) = search (
    Atomic-bind, Atomic-total, unaudited_rules, Atomic-update_notes,
    Keeps-get_appointment_for_actor,
  )

  pub Atomic-delete_appointment :
      (env : Env) (tenant id : ℕ) (actor : AccessTokenPayload)
      → Atomic {K = K} (delete_appointment env tenant id actor)
  unfolding delete_appointment soft_delete
  Atomic-delete_appointment env tenant id actor = search (
    Atomic-bind, Atomic-total, unaudited_rules, Atomic-transaction,
    Keeps-get_appointment_for_tenant,
  )
