-- ===== src/Appointments/Service.antt =====
-- The methods of `AppointmentsService`,
-- backend/src/modules/appointments/application/appointments.service.ts. A method for the AI
-- receptionist repeats the one for a person with another author, so both have one body.
use kapis_receptionist.Rows.{user, ActorType, Env}
use kapis_receptionist.Prelude.{ℕ, String, Option, none, some, List, [], ◌∷◌, map, length, last_or}
use kapis_receptionist.Appointments.Lines.{build_lines, LineRequest, sum_price}
use kapis_receptionist.Prelude.Action.{◌>>=◌, gets, throw, pure, ◌>>◌}
use kapis_receptionist.Appointments.World.{
  no_update_fields_provided, AuditEvent, AppointmentEntity, created_action, appointment_deleted,
  appointment_notes_updated, type_error, appointment_created, appointment_cancelled, AuditRow,
  appointment_rescheduled,
}
use kapis_receptionist.Appointments.Guards.{
  assert_cancellable_status, build_late_notice_warnings, Warning, get_appointment_for_actor,
  assert_within_appointment_limit, of_result, assert_customer_belongs_to_tenant,
  get_appointment_for_tenant, record_audit, with_conflict_handling,
}
use kapis_receptionist.Appointments.Repository.{
  soft_delete, cancel, update_notes, Booking, reschedule, create,
}
use kapis_receptionist.Appointments.Tables.{CreateAppointmentInput, LineInput}
use kapis_receptionist.Locking.Keyspace.{Redis}
use kapis_receptionist.Rbac.{AccessTokenPayload}
use kapis_receptionist.Appointments.Locks.{with_employee_locks}

pub record CreateAppointmentRequest : Type 0 where
  pub customer_id : ℕ
  pub start_time : ℕ
  pub services : List LineRequest
  pub notes : Option String

pub record RescheduleAppointmentRequest : Type 0 where
  pub new_start_time : ℕ
  pub services : Option (List LineRequest)

pub record AiActorContext : Type 0 where
  pub actor_type : ActorType
  pub conversation_id : ℕ

-- Whom the history and the audit rows name.
pub record Author : Type 0 where
  pub actor_type : ActorType
  pub actor_id : Option ℕ
  pub conversation_id : Option ℕ

abbrev pub person : AccessTokenPayload → Author
person actor = record { actor_type = user; actor_id = some actor.sub; conversation_id = none }

abbrev pub receptionist : AiActorContext → Author
receptionist ai = record {
  actor_type = ai.actor_type;
  actor_id = none;
  conversation_id = some ai.conversation_id;
}

-- What the repository is asked to insert, of lines of which `lines[0]` is the first.
abbrev pub appointment_input :
    Author → ℕ → Option String → LineInput → List LineInput → CreateAppointmentInput
appointment_input author customer notes first rest = record {
  customer_id = customer;
  employee_id = first.employee_id;
  start_time = first.start_time;
  end_time = (last_or first rest).end_time;
  total_price_cents = sum_price (first ∷ rest);
  currency = first.currency;
  notes = notes;
  lines = first ∷ rest;
  actor_type = author.actor_type;
  actor_id = author.actor_id;
  rescheduled_from = none;
}

-- `work` on that input; `lines[0]` of no lines is a `TypeError`.
abbrev pub on_input :
    {K A : Type 0}
    → Author
    → ℕ
    → Option String
    → List LineInput
    → (CreateAppointmentInput → Booking K A)
    → Booking K A
on_input author customer notes [] work = throw type_error
on_input author customer notes (first ∷ rest) work =
    work (appointment_input author customer notes first rest)

abbrev pub audit_row : ℕ → ℕ → Author → AuditEvent → AuditRow
audit_row tenant id author event = record {
  tenant_id = tenant;
  entity_id = id;
  event = event;
  actor_type = author.actor_type;
  actor_id = author.actor_id;
}

-- The lines that a reschedule books: those of the request, or those of the appointment.
abbrev pub requested_lines : Option (List LineRequest) → AppointmentEntity → List LineRequest
requested_lines (some requests) current = requests
requested_lines none current =
    map (λ l. record { service_id = l.service_id; employee_id = l.employee_id }) current.services

pub record Rescheduled : Type 0 where
  pub original_appointment : AppointmentEntity
  pub new_appointment : AppointmentEntity
  pub warnings : List Warning

module _ {K : Type 0} where
  -- The callback that `createAppointment` runs under the locks.
  unfoldable pub insert_booking :
      Env → ℕ → Author → CreateAppointmentRequest → List LineInput → Booking K AppointmentEntity
  unfolding create with_conflict_handling record_audit sum_price last_or ◌>>=◌
  insert_booking env tenant author request lines = do
    appointment ←
        on_input author request.customer_id request.notes lines
          (λ input. with_conflict_handling (create env tenant input created_action))
    record_audit (
        audit_row tenant appointment.row.id author
          (appointment_created request.customer_id (length lines) author.conversation_id))
    pure appointment

  unfoldable pub update_appointment_notes :
      ℕ → ℕ → AccessTokenPayload → Option String → Booking K AppointmentEntity
  unfolding get_appointment_for_actor update_notes record_audit ◌>>=◌
  update_appointment_notes tenant id actor none = throw no_update_fields_provided
  update_appointment_notes tenant id actor (some notes) = do
    get_appointment_for_actor tenant id actor
    updated ← update_notes tenant id notes
    record_audit (audit_row tenant id (person actor) appointment_notes_updated)
    pure updated

  -- `cancelAppointment`, after it has found the appointment
  unfoldable pub cancel_as :
      Env
      → ℕ
      → ℕ
      → Author
      → Option String
      → AppointmentEntity
      → Booking K (AppointmentEntity × List Warning)
  unfolding assert_cancellable_status build_late_notice_warnings cancel record_audit ◌>>=◌
  cancel_as env tenant id author reason current = do
    assert_cancellable_status current.row.status
    warnings ← build_late_notice_warnings env tenant current.row.start_time
    cancelled_row ← cancel env tenant id reason author.actor_type author.actor_id
    record_audit (audit_row tenant id author (appointment_cancelled reason author.conversation_id))
    pure (cancelled_row, warnings)

  unfoldable pub cancel_appointment :
      Env
      → ℕ
      → ℕ
      → AccessTokenPayload
      → Option String
      → Booking K (AppointmentEntity × List Warning)
  unfolding get_appointment_for_actor cancel_as ◌>>=◌
  cancel_appointment env tenant id actor reason = do
    current ← get_appointment_for_actor tenant id actor
    cancel_as env tenant id (person actor) reason current

  unfoldable pub cancel_appointment_for_ai :
      Env → ℕ → ℕ → Option String → AiActorContext → Booking K (AppointmentEntity × List Warning)
  unfolding get_appointment_for_tenant cancel_as ◌>>=◌
  cancel_appointment_for_ai env tenant id reason ai = do
    current ← get_appointment_for_tenant tenant id
    cancel_as env tenant id (receptionist ai) reason current

  unfoldable pub delete_appointment : Env → ℕ → ℕ → AccessTokenPayload → Booking K (Unit {0})
  unfolding get_appointment_for_tenant soft_delete record_audit ◌>>=◌
  delete_appointment env tenant id actor = do
    get_appointment_for_tenant tenant id
    soft_delete env tenant id
    record_audit (audit_row tenant id (person actor) appointment_deleted)

  -- The callback that `rescheduleAppointment` runs under the locks.
  unfoldable pub move_booking :
      Env
      → ℕ
      → ℕ
      → Author
      → AppointmentEntity
      → List LineInput
      → Booking K (AppointmentEntity × AppointmentEntity)
  unfolding with_conflict_handling reschedule sum_price last_or
  move_booking env tenant id author current lines =
      on_input author current.row.customer_id current.row.notes lines
        (λ input. with_conflict_handling (reschedule env tenant id input))

module _ {K : Type 0} ⦃r : Redis K⦄ where
  unfoldable pub create_as :
      Env → ℕ → Author → CreateAppointmentRequest → Booking K AppointmentEntity
  unfolding assert_customer_belongs_to_tenant assert_within_appointment_limit build_lines
      with_employee_locks insert_booking ◌>>=◌
  create_as env tenant author request = do
    assert_customer_belongs_to_tenant tenant request.customer_id
    assert_within_appointment_limit env tenant request.start_time
    built ← gets (λ w. build_lines w.directory tenant request.start_time request.services)
    lines ← of_result built
    with_employee_locks env tenant lines (insert_booking env tenant author request lines)

  unfoldable pub create_appointment :
      Env → ℕ → AccessTokenPayload → CreateAppointmentRequest → Booking K AppointmentEntity
  unfolding create_as
  create_appointment env tenant actor request = create_as env tenant (person actor) request

  unfoldable pub create_appointment_for_ai :
      Env → ℕ → CreateAppointmentRequest → AiActorContext → Booking K AppointmentEntity
  unfolding create_as
  create_appointment_for_ai env tenant request ai = create_as env tenant (receptionist ai) request

  -- `rescheduleAppointment`, after it has found the appointment
  unfoldable pub reschedule_as :
      Env
      → ℕ
      → ℕ
      → Author
      → RescheduleAppointmentRequest
      → AppointmentEntity
      → Booking K Rescheduled
  unfolding assert_cancellable_status build_late_notice_warnings build_lines with_employee_locks
      move_booking record_audit ◌>>=◌
  reschedule_as env tenant id author request current = do
    assert_cancellable_status current.row.status
    warnings ← build_late_notice_warnings env tenant current.row.start_time
    built ← gets (λ w.
        build_lines w.directory tenant request.new_start_time
          (requested_lines request.services current))
    lines ← of_result built
    moved ← with_employee_locks env tenant lines (move_booking env tenant id author current lines)
    record_audit (
        audit_row tenant id author
          (appointment_rescheduled moved.1.row.id request.new_start_time author.conversation_id))
    pure (record { original_appointment = moved.0; new_appointment = moved.1; warnings = warnings })

  unfoldable pub reschedule_appointment :
      Env → ℕ → ℕ → AccessTokenPayload → RescheduleAppointmentRequest → Booking K Rescheduled
  unfolding get_appointment_for_actor reschedule_as ◌>>=◌
  reschedule_appointment env tenant id actor request = do
    current ← get_appointment_for_actor tenant id actor
    reschedule_as env tenant id (person actor) request current

  unfoldable pub reschedule_appointment_for_ai :
      Env → ℕ → ℕ → RescheduleAppointmentRequest → AiActorContext → Booking K Rescheduled
  unfolding get_appointment_for_tenant reschedule_as ◌>>=◌
  reschedule_appointment_for_ai env tenant id request ai = do
    current ← get_appointment_for_tenant tenant id
    reschedule_as env tenant id (receptionist ai) request current
