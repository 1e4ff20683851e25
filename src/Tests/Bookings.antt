-- ===== src/Tests/Bookings.antt =====
-- Runs of requests on the salon of Fixtures.
use kapis_receptionist.Prelude.{◌+◌, ◌≡◌, refl, true, none, some, List, [], ◌∷◌, any, false, arith}
use kapis_receptionist.Appointments.Requests.{
  Request, serve_all, handle, create_request, cancel_request,
}
use kapis_receptionist.Tests.Fixtures.{
  open_salon, booking, nine, owner_token, Keys, env, keys_redis, salon, keys_run, keys_answer,
}
use kapis_receptionist.Appointments.Atomic.{SameTables}
use kapis_receptionist.Appointments.Service.{create_appointment, cancel_appointment}
use kapis_receptionist.Appointments.NoDoubleBooking.{NoDoubleBooking, no_double_booking}
use kapis_receptionist.Appointments.World.{
  slot_no_longer_available, World, exclusion_violation, AppointmentEntity, created_action,
  billing_error, audit_write_failed,
}
use kapis_receptionist.Rows.{user, LineRow, confirmed, AppointmentRow, cancelled}
use kapis_receptionist.Availability.{
  is_window_available, get_blocking_ranges, effective_buffer_minutes,
}
use kapis_receptionist.Appointments.LockRelease.{locks_restored}
use kapis_receptionist.Locking.Taken.{SameKeys}
use kapis_receptionist.Appointments.FailedRequests.{failed_request_writes_nothing}
use kapis_receptionist.Directory.{
  find_employee, list_holidays, list_time_off, get_working_hours, service_ids_for_employee,
  customers_by_ids,
}
use kapis_receptionist.Salon.BusinessHours.{get_business_hours}
use kapis_receptionist.Availability.Windows.{get_working_windows_for_date}
use kapis_receptionist.Appointments.Cancellation.{
  blocks_for, is_reached_by, cancel_appointment_effects,
}
use kapis_receptionist.Appointments.Tables.{CreateAppointmentInput, LineInput}
use kapis_receptionist.Appointments.BuiltLines.{build_lines-Consecutive, Consecutive}
use kapis_receptionist.Appointments.Lines.{build_lines}
use kapis_receptionist.Appointments.Guards.{is_cancellable}
use kapis_receptionist.Prelude.Action.{err}
use kapis_receptionist.Appointments.Repository.{create, find_appointment, reschedule}
use kapis_receptionist.Appointments.BackToBack.{create_back_to_back}
use kapis_receptionist.Appointments.OwnSlot.{reschedule_into_own_slot}
use kapis_receptionist.Billing.Entitlement.{
  no_default_plan_configured, find_default, find_subscription,
}
use kapis_receptionist.Appointments.NoPlan.{create_appointment_no_plan}

abbrev taken_line : LineRow
taken_line = record {
  tenant_id = 1;
  appointment_id = 40;
  service_id = 3;
  employee_id = 7;
  service_name_snapshot = "Haircut";
  duration_minutes_snapshot = 30;
  price_cents_snapshot = 4500;
  buffer_minutes_snapshot = 10;
  sequence_order = 0;
  start_time = nine;
  end_time = nine + 1800000;
  blocked_until = nine + 2400000;
  is_blocking = true;
}

-- Nine o'clock is booked.
abbrev booked_salon : World Keys
booked_salon = record open_salon { lines = taken_line ∷ [] }

-- A booking, one that the first has made impossible, and a cancellation.
abbrev day : List Request
day =
    create_request env 1 owner_token booking
    ∷ create_request env 1 owner_token booking
    ∷ cancel_request env 1 50 owner_token none
    ∷ []

no_double_booking_example : NoDoubleBooking (serve_all day booked_salon)
unfolding any
no_double_booking_example = no_double_booking day booked_salon (refl, tt)

locks_restored_example : SameKeys keys_redis (serve_all day open_salon).redis open_salon.redis
locks_restored_example = locks_restored ⦃r = keys_redis⦄ keys_run keys_answer day open_salon

abbrev refused_booking : Request
refused_booking = create_request env 1 owner_token booking

failed_request_writes_nothing_example :
    SameTables booked_salon (handle refused_booking booked_salon).1
unfolding handle is_window_available find_employee get_working_windows_for_date list_holidays
    list_time_off get_blocking_ranges get_business_hours get_working_hours keys_redis
failed_request_writes_nothing_example =
    failed_request_writes_nothing refused_booking booked_salon
      (handle refused_booking booked_salon).1 (slot_no_longer_available (some 7)) refl (λ p. cc)

-- A booking whose audit row cannot be written throws, but its lines are stored.
audit_failure_keeps_booking :
    ((handle
        (create_request env 1 owner_token booking)
        (record open_salon { audit_accepts = λ a. false })).0
      ≡ err audit_write_failed)
    × ((handle
          (create_request env 1 owner_token booking)
          (record open_salon { audit_accepts = λ a. false })).1.lines
        ≡ record taken_line { appointment_id = 50 } ∷ [])
unfolding handle is_window_available find_employee get_working_windows_for_date list_holidays
    list_time_off get_blocking_ranges get_business_hours get_working_hours keys_redis
audit_failure_keeps_booking = (refl, refl)

-- The first booking succeeds.
created :
    (create_appointment env 1 owner_token booking open_salon).1.lines
    ≡ record taken_line { appointment_id = 50 } ∷ []
unfolding create_appointment is_window_available find_employee get_working_windows_for_date
    list_holidays list_time_off get_blocking_ranges get_business_hours get_working_hours keys_redis
created = refl

abbrev row : AppointmentRow
row = record {
  id = 40;
  tenant_id = 1;
  customer_id = 9;
  employee_id = 7;
  status = confirmed;
  start_time = nine;
  end_time = nine + 1800000;
  total_price_cents = 4500;
  currency = "EUR";
  notes = none;
  cancellation_reason = none;
  cancelled_at = none;
  rescheduled_from = none;
  deleted_at = none;
}

abbrev one_booked : World Keys
one_booked = record open_salon { appointments = row ∷ []; lines = taken_line ∷ [] }

abbrev cancelled_entity : AppointmentEntity
cancelled_entity = record {
  row = record row { status = cancelled; cancelled_at = some 0 };
  services = record taken_line { is_blocking = false } ∷ [];
}

abbrev after_cancel : World Keys
after_cancel = (cancel_appointment env 1 40 owner_token none one_booked).1

cancel_appointment_effects_example :
    (old : AppointmentRow) × (find_appointment 1 40 one_booked.appointments ≡ some old)
    × (is_reached_by 1 owner_token one_booked old ≡ true)
    × (is_cancellable old.status ≡ true)
    × (cancelled ≡ cancelled)
    × (any (blocks_for 40) after_cancel.lines ≡ false)
unfolding cancel_appointment
cancel_appointment_effects_example =
    cancel_appointment_effects env 1 40 owner_token none one_booked after_cancel cancelled_entity []
      refl

abbrev line : LineInput
line = record {
  service_id = 3;
  employee_id = 7;
  service_name_snapshot = "Haircut";
  duration_minutes_snapshot = 30;
  price_cents_snapshot = 4500;
  buffer_minutes_snapshot = 10;
  sequence_order = 0;
  start_time = nine;
  end_time = nine + 1800000;
  blocked_until = nine + 2400000;
  currency = "EUR";
}

abbrev next_line : LineInput
next_line = record line {
  sequence_order = 1;
  start_time = nine + 1800000;
  end_time = nine + 3600000;
  blocked_until = nine + 4200000;
}

abbrev two_lines : CreateAppointmentInput
two_lines = record {
  customer_id = 9;
  employee_id = 7;
  start_time = nine;
  end_time = nine + 3600000;
  total_price_cents = 9000;
  currency = "EUR";
  notes = none;
  lines = line ∷ next_line ∷ [];
  actor_type = user;
  actor_id = some 60;
  rescheduled_from = none;
}

create_back_to_back_example :
    create env 1 two_lines created_action open_salon ≡ (err exclusion_violation, open_salon)
create_back_to_back_example =
    create_back_to_back env 1 two_lines created_action line next_line [] open_salon refl refl refl
      (omega arith) (omega arith) (omega arith)

build_lines-Consecutive_example : Consecutive salon 1 0 nine booking.services (line ∷ [])
unfolding build_lines find_employee effective_buffer_minutes service_ids_for_employee
build_lines-Consecutive_example =
    build_lines-Consecutive salon 1 nine booking.services (line ∷ []) refl

-- A quarter of an hour later, which overlaps the line that is booked.
abbrev later_line : LineInput
later_line = record line {
  start_time = nine + 900000;
  end_time = nine + 2700000;
  blocked_until = nine + 3300000;
}

abbrev later : CreateAppointmentInput
later = record two_lines {
  start_time = nine + 900000;
  end_time = nine + 2700000;
  total_price_cents = 4500;
  lines = later_line ∷ [];
}

reschedule_into_own_slot_example :
    reschedule env 1 40 later one_booked ≡ (err exclusion_violation, one_booked)
unfolding any
reschedule_into_own_slot_example =
    reschedule_into_own_slot env 1 40 later later_line [] one_booked refl refl

abbrev no_plans : World Keys
no_plans = record open_salon { billing = record { plans = []; subscriptions = [] } }

create_appointment_no_plan_example :
    create_appointment ⦃r = keys_redis⦄ env 1 owner_token booking no_plans
    ≡ (err (billing_error no_default_plan_configured), no_plans)
unfolding customers_by_ids find_subscription find_default
create_appointment_no_plan_example =
    create_appointment_no_plan ⦃r = keys_redis⦄ env 1 owner_token booking no_plans refl refl refl
