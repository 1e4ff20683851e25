-- ===== src/Appointments/Tables.antt =====
-- The rows that backend/src/modules/appointments/infrastructure/prisma-appointment.repository.ts
-- writes, and the exclusion constraint of `appointment_services` in
-- backend/prisma/migrations/20260722230701_milestone_6_scheduling_engine/migration.sql.
use kapis_receptionist.Prelude.{
  ℕ, String, Bool, true, false, ◌&&◌, Option, none, some, List, ltb, ◌==◌, [], ◌∷◌, leb,
  if◌then◌else◌,
}
use kapis_receptionist.Appointments.World.{HistoryRow, booked, HistoryAction}
use kapis_receptionist.Rows.{
  confirmed, ActorType, AppointmentRow, AppointmentStatus, LineRow, Env, cancelled,
}

-- `AppointmentServiceLineInput`
pub record LineInput : Type 0 where
  pub service_id : ℕ
  pub employee_id : ℕ
  pub service_name_snapshot : String
  pub duration_minutes_snapshot : ℕ
  pub price_cents_snapshot : ℕ
  pub buffer_minutes_snapshot : ℕ
  pub sequence_order : ℕ
  pub start_time : ℕ
  pub end_time : ℕ
  pub blocked_until : ℕ
  pub currency : String

-- `CreateAppointmentInput`
pub record CreateAppointmentInput : Type 0 where
  pub customer_id : ℕ
  pub employee_id : ℕ
  pub start_time : ℕ
  pub end_time : ℕ
  pub total_price_cents : ℕ
  pub currency : String
  pub notes : Option String
  pub lines : List LineInput
  pub actor_type : ActorType
  pub actor_id : Option ℕ
  pub rescheduled_from : Option ℕ

-- `lineCreateData`: a new line is blocking by the default of its column.
abbrev pub line_create_data : ℕ → ℕ → LineInput → LineRow
line_create_data tenant appointment l = record {
  tenant_id = tenant;
  appointment_id = appointment;
  service_id = l.service_id;
  employee_id = l.employee_id;
  service_name_snapshot = l.service_name_snapshot;
  duration_minutes_snapshot = l.duration_minutes_snapshot;
  price_cents_snapshot = l.price_cents_snapshot;
  buffer_minutes_snapshot = l.buffer_minutes_snapshot;
  sequence_order = l.sequence_order;
  start_time = l.start_time;
  end_time = l.end_time;
  blocked_until = l.blocked_until;
  is_blocking = true;
}

-- `tsrange(a, b) && tsrange(c, d)`: the ranges exclude their ends, and an empty one meets nothing.
abbrev pub ranges_overlap : ℕ → ℕ → ℕ → ℕ → Bool
ranges_overlap a b c d = ltb a b && (ltb c d && (ltb a d && ltb c b))

-- Two rows that the constraint does not let stand together.
abbrev pub excludes : LineRow → LineRow → Bool
excludes x y =
    x.is_blocking
    && (y.is_blocking
        && (x.employee_id == y.employee_id
            && ranges_overlap x.start_time x.blocked_until y.start_time y.blocked_until))

abbrev pub is_appointment : ℕ → ℕ → AppointmentRow → Bool
is_appointment tenant id a = a.id == id && a.tenant_id == tenant

abbrev pub is_line_of : ℕ → LineRow → Bool
is_line_of id l = l.appointment_id == id

-- `.sort((a, b) => a.sequenceOrder - b.sequenceOrder)`, which keeps the order of equal keys.
unfoldable pub insert_by_sequence : LineRow → List LineRow → List LineRow
insert_by_sequence l [] = l ∷ []
insert_by_sequence l (m ∷ ms) =
    if leb l.sequence_order m.sequence_order then l ∷ m ∷ ms else m ∷ insert_by_sequence l ms

unfoldable pub sort_by_sequence : List LineRow → List LineRow
unfolding insert_by_sequence
sort_by_sequence [] = []
sort_by_sequence (l ∷ ls) = insert_by_sequence l (sort_by_sequence ls)

abbrev pub is_none : {A : Type 0} → Option A → Bool
is_none none = true
is_none (some a) = false

abbrev pub new_row : Env → ℕ → CreateAppointmentInput → AppointmentRow
new_row env tenant input = record {
  id = env.new_id;
  tenant_id = tenant;
  customer_id = input.customer_id;
  employee_id = input.employee_id;
  status = confirmed;
  start_time = input.start_time;
  end_time = input.end_time;
  total_price_cents = input.total_price_cents;
  currency = input.currency;
  notes = input.notes;
  cancellation_reason = none;
  cancelled_at = none;
  rescheduled_from = input.rescheduled_from;
  deleted_at = none;
}

abbrev pub booked_history : Env → ℕ → CreateAppointmentInput → HistoryAction → HistoryRow
booked_history env tenant input action = record {
  tenant_id = tenant;
  appointment_id = env.new_id;
  action = action;
  previous = input.rescheduled_from;
  new_state = booked confirmed input.start_time;
  actor_type = input.actor_type;
  actor_id = input.actor_id;
}

abbrev pub is_cancelled : AppointmentStatus → Bool
is_cancelled cancelled = true
is_cancelled _ = false
