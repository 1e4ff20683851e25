-- ===== src/Availability.antt =====
-- backend/src/modules/availability/application/availability.service.ts: the bookable slots of a
-- service, and the check of one window at booking time. The rows of `appointment_services` that the
-- service reads directly are an argument. No step of it writes.
pub mod Windows
pub mod Sorting
pub mod Loops
pub mod Offered
pub mod DayWindows
pub mod Bookable
pub mod Buffer
use Prim.Native.Nat.{max}
use kapis_receptionist.Prelude.{
  ℕ, ◌-◌, Bool, false, ◌&&◌, ◌||◌, not, Option, none, some, List, [], ◌∷◌, map, ltb, leb, ◌==◌,
  if◌then◌else◌, length, any, keep, take, includes,
}
use kapis_receptionist.Prelude.Action.{Result, ok, err}
use kapis_receptionist.Scheduling.{combine_date_and_time, to_date_str, add_minutes, get_utc_day}
use kapis_receptionist.Directory.{
  Directory, Employee, Service, is_active_status, find_employee, employee_ids_for_service,
  services_by_ids, get_working_hours, list_time_off, list_holidays,
}
use kapis_receptionist.Directory.Settings.{read_number_setting}
use kapis_receptionist.Salon.BusinessHours.{get_business_hours}
use kapis_receptionist.Rows.{LineRow}
use Windows.{get_working_windows_for_date}
use Sorting.{AvailabilitySlot, sort_by_start}
use Loops.{BlockingRange, conflicts_with, Search, employee_slots}

pub data AvailabilityError : Type 0 where
  date_range_too_large service_not_found : AvailabilityError

pub record GetAvailableSlotsInput : Type 0 where
  pub service_id : ℕ
  pub employee_id : Option ℕ
  pub date_from : ℕ
  pub date_to : ℕ

abbrev pub max_date_range_days : ℕ
max_date_range_days = 31

-- `assertDateRangeWithinCap`, on dates as day numbers: a negative difference is `date_to < date_from`.
abbrev pub is_range_within_cap : ℕ → ℕ → Bool
is_range_within_cap date_from date_to =
    not (ltb date_to date_from || ltb max_date_range_days (date_to - date_from))

-- `effectiveBufferMinutes`
unfoldable pub effective_buffer_minutes : Directory → ℕ → ℕ → ℕ
unfolding read_number_setting
effective_buffer_minutes d tenant service_buffer =
    max service_buffer (read_number_setting (d.business_settings tenant) "bookingBufferMinutes" 0)

-- `getBlockingRanges`
unfoldable pub get_blocking_ranges : List LineRow → ℕ → ℕ → ℕ → ℕ → List BlockingRange
unfolding keep
get_blocking_ranges lines tenant employee range_start range_end =
    map (λ r. record { start = r.start_time; end = r.blocked_until })
      (keep
        (λ r.
          r.tenant_id == tenant
          && (r.employee_id == employee
              && (r.is_blocking
                  && (ltb r.start_time range_end && ltb range_start r.blocked_until))))
        lines)

-- `employeeIdFilter ? eligibleIds.filter(...) : eligibleIds`
abbrev pub only_id : Option ℕ → List ℕ → List ℕ
only_id none ids = ids
only_id (some id) ids = keep (λ x. x == id) ids

-- `getEligibleActiveEmployees`: an empty list of identifiers gives an empty page.
unfoldable pub get_eligible_active_employees : Directory → ℕ → ℕ → Option ℕ → List Employee
unfolding keep includes employee_ids_for_service take
get_eligible_active_employees d tenant service filter =
    let ids = only_id filter (employee_ids_for_service d tenant service) in
    take (length ids) (
      keep
        (λ e.
          e.tenant_id == tenant
          && (not e.deleted && (is_active_status e.status && includes e.id ids)))
        d.employees)

-- What one request looks up before its loops.
abbrev pub search_of : Directory → List LineRow → ℕ → GetAvailableSlotsInput → Service → Search
search_of d lines tenant input service = record {
  duration_minutes = service.duration_minutes;
  buffer_minutes = effective_buffer_minutes d tenant service.buffer_time_minutes;
  date_from = combine_date_and_time input.date_from 0;
  date_to = combine_date_and_time input.date_to 0;
  windows = λ e date day.
      get_working_windows_for_date date day (get_business_hours d.business_hours tenant)
        (list_holidays d tenant) (list_time_off d tenant e.id) (get_working_hours d tenant e.id);
  blocking = λ e.
      get_blocking_ranges lines tenant e.id (combine_date_and_time input.date_from 0)
        (add_minutes (combine_date_and_time input.date_to 0) 1440);
}

abbrev pub slots_of_service :
    Directory
    → List LineRow
    → ℕ
    → GetAvailableSlotsInput
    → List Service
    → Result AvailabilityError (List AvailabilitySlot)
slots_of_service d lines tenant input [] = err service_not_found
slots_of_service d lines tenant input (service ∷ _) = ok (
    sort_by_start (
      employee_slots (search_of d lines tenant input service)
        (get_eligible_active_employees d tenant input.service_id input.employee_id)))

unfoldable pub get_available_slots :
    Directory
    → List LineRow
    → ℕ
    → GetAvailableSlotsInput
    → Result AvailabilityError (List AvailabilitySlot)
get_available_slots d lines tenant input =
    if is_range_within_cap input.date_from input.date_to
    then slots_of_service d lines tenant input (services_by_ids d tenant (input.service_id ∷ []))
    else err date_range_too_large

-- The windows and blocking ranges that `isWindowAvailable` reads for an active employee.
abbrev pub is_window_free : Directory → List LineRow → ℕ → ℕ → ℕ → ℕ → ℕ → Bool
is_window_free d lines tenant employee start_time end_time buffer_minutes =
    any (λ w. leb w.start start_time && leb end_time w.end)
      (get_working_windows_for_date (to_date_str start_time) (get_utc_day start_time)
        (get_business_hours d.business_hours tenant) (list_holidays d tenant)
        (list_time_off d tenant employee) (get_working_hours d tenant employee))
    && not (
        any (conflicts_with start_time (add_minutes end_time buffer_minutes))
          (get_blocking_ranges lines tenant employee start_time end_time))

abbrev pub when_active : Option Employee → Bool → Bool
when_active none b = false
when_active (some e) b = is_active_status e.status && b

unfoldable pub is_window_available : Directory → List LineRow → ℕ → ℕ → ℕ → ℕ → ℕ → Bool
unfolding any
is_window_available d lines tenant employee start_time end_time buffer_minutes =
    when_active (find_employee d tenant employee)
      (is_window_free d lines tenant employee start_time end_time buffer_minutes)
