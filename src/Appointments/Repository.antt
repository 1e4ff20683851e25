-- ===== src/Appointments/Repository.antt =====
-- backend/src/modules/appointments/infrastructure/prisma-appointment.repository.ts, over the tables
-- of the schema: the methods that booking calls.
use kapis_receptionist.Prelude.{
  ℕ, String, false, not, ◌&&◌, Option, none, some, List, [], ◌∷◌, ltb, leb, ◌==◌, length, any, keep,
  find, update_where,
}
use kapis_receptionist.Appointments.Tables.{
  line_create_data, CreateAppointmentInput, new_row, LineInput, is_appointment, is_cancelled,
  is_none, is_line_of, excludes, booked_history, sort_by_sequence,
}
use kapis_receptionist.Appointments.World.{
  HistoryRow, rescheduled_action, exclusion_violation, rescheduled_to, cancelled_action,
  AppointmentEntity, HistoryAction, cancelled_state, World, BookingError, no_such_record,
}
use kapis_receptionist.Prelude.Action.{
  or_throw, pure, throw_if, modify, Action, transaction, ◌>>=◌, gets, ◌>>◌,
}
use kapis_receptionist.Rows.{rescheduled, ActorType, AppointmentRow, LineRow, Env, cancelled}

-- `findByIdForTenant`, without the lines
unfoldable pub find_appointment : ℕ → ℕ → List AppointmentRow → Option AppointmentRow
unfolding find
find_appointment tenant id rows =
    find (λ a. is_appointment tenant id a && is_none a.deleted_at) rows

abbrev pub Booking : Type 0 → Type 0 → Type 0
Booking K A = Action (World K) BookingError A

module _ {K : Type 0} where
  -- `toAppointmentEntity` of a row with its lines.
  unfoldable pub with_lines : World K → AppointmentRow → AppointmentEntity
  unfolding keep sort_by_sequence
  with_lines w a = record { row = a; services = sort_by_sequence (keep (is_line_of a.id) w.lines) }

  abbrev pub entity_if_found : World K → Option AppointmentRow → Option AppointmentEntity
  entity_if_found w none = none
  entity_if_found w (some a) = some (with_lines w a)

  unfoldable pub find_by_id_for_tenant : ℕ → ℕ → Booking K (Option AppointmentEntity)
  unfolding find_appointment with_lines gets
  find_by_id_for_tenant tenant id =
      gets (λ w. entity_if_found w (find_appointment tenant id w.appointments))

  -- One inserted line, checked against every row that stands.
  unfoldable pub insert_line : LineRow → Booking K (Unit {0})
  unfolding any ◌>>=◌
  insert_line l = do
    clash ← gets (λ w. any (excludes l) w.lines)
    throw_if clash exclusion_violation
    modify (λ w. record w { lines = l ∷ w.lines })

  unfoldable pub insert_lines : ℕ → ℕ → List LineInput → Booking K (Unit {0})
  unfolding insert_line ◌>>=◌
  insert_lines tenant id [] = pure tt
  insert_lines tenant id (l ∷ ls) =
      insert_line (line_create_data tenant id l) >> insert_lines tenant id ls

  unfoldable pub insert_history : HistoryRow → Booking K (Unit {0})
  unfolding modify
  insert_history h = modify (λ w. record w { history = h ∷ w.history })

  -- The row, then its lines: `tx.appointment.create` with nested lines.
  unfoldable pub insert_appointment : Env → ℕ → CreateAppointmentInput → Booking K AppointmentEntity
  unfolding insert_lines with_lines ◌>>=◌
  insert_appointment env tenant input = do
    modify (λ w. record w { appointments = new_row env tenant input ∷ w.appointments })
    insert_lines tenant env.new_id input.lines
    gets (λ w. with_lines w (new_row env tenant input))

  unfoldable pub create :
      Env → ℕ → CreateAppointmentInput → HistoryAction → Booking K AppointmentEntity
  unfolding insert_appointment insert_history transaction ◌>>=◌
  create env tenant input action = transaction do
    appointment ← insert_appointment env tenant input
    insert_history (booked_history env tenant input action)
    pure appointment

  -- `appointment.update` by the unique key of tenant and identifier; a deleted row matches too.
  unfoldable pub update_appointment :
      ℕ → ℕ → (AppointmentRow → AppointmentRow) → Booking K AppointmentRow
  unfolding find update_where ◌>>=◌
  update_appointment tenant id change = do
    found ← gets (λ w. find (is_appointment tenant id) w.appointments)
    row ← or_throw found no_such_record
    modify (λ w. record w {
      appointments = update_where (is_appointment tenant id) change w.appointments;
    })
    pure (change row)

  -- `services: { updateMany: { where: {}, data: { isBlocking: false } } }`
  unfoldable pub unblock_lines : ℕ → Booking K (Unit {0})
  unfolding update_where modify
  unblock_lines id = modify (λ w. record w {
    lines = update_where (is_line_of id) (λ l. record l { is_blocking = false }) w.lines;
  })

  unfoldable pub update_notes : ℕ → ℕ → String → Booking K AppointmentEntity
  unfolding update_appointment with_lines ◌>>=◌
  update_notes tenant id notes = do
    row ← update_appointment tenant id (λ a. record a { notes = some notes })
    gets (λ w. with_lines w row)

  unfoldable pub cancel :
      Env → ℕ → ℕ → Option String → ActorType → Option ℕ → Booking K AppointmentEntity
  unfolding update_appointment unblock_lines insert_history with_lines transaction ◌>>=◌
  cancel env tenant id reason actor_type actor_id = transaction do
    row ← update_appointment tenant id (λ a. record a {
      status = cancelled;
      cancelled_at = some env.now;
      cancellation_reason = reason;
    })
    unblock_lines id
    insert_history (record {
      tenant_id = tenant;
      appointment_id = id;
      action = cancelled_action;
      previous = none;
      new_state = cancelled_state env.now reason;
      actor_type = actor_type;
      actor_id = actor_id;
    })
    gets (λ w. with_lines w row)

  unfoldable pub reschedule :
      Env → ℕ → ℕ → CreateAppointmentInput → Booking K (AppointmentEntity × AppointmentEntity)
  unfolding insert_appointment update_appointment unblock_lines insert_history with_lines
      transaction ◌>>=◌
  reschedule env tenant original input = transaction do
    let linked : CreateAppointmentInput = record input { rescheduled_from = some original }
    new_row ← insert_appointment env tenant linked
    insert_history (booked_history env tenant linked rescheduled_action)
    row ← update_appointment tenant original (λ a. record a { status = rescheduled })
    unblock_lines original
    insert_history (record {
      tenant_id = tenant;
      appointment_id = original;
      action = rescheduled_action;
      previous = none;
      new_state = rescheduled_to env.new_id;
      actor_type = input.actor_type;
      actor_id = input.actor_id;
    })
    gets (λ w. (with_lines w row, new_row))

  unfoldable pub soft_delete : Env → ℕ → ℕ → Booking K (Unit {0})
  unfolding update_appointment unblock_lines transaction ◌>>=◌
  soft_delete env tenant id = transaction do
    update_appointment tenant id (λ a. record a { deleted_at = some env.now }) >> unblock_lines id

  unfoldable pub count_for_tenant_in_range : ℕ → ℕ → ℕ → Booking K ℕ
  unfolding keep gets
  count_for_tenant_in_range tenant from to = gets (λ w. length (
      keep
        (λ a.
          a.tenant_id == tenant
          && (is_none a.deleted_at
              && (not (is_cancelled a.status) && (leb from a.start_time && ltb a.start_time to))))
        w.appointments))
