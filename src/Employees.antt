-- ===== src/Employees.antt =====
-- backend/src/modules/employees/application/working-hours.service.ts and employee-time-off.service.ts,
-- with their repositories. Times of day are minutes and dates are days; the reason of a time off, which
-- no code reads back but the page that shows it, is left out. The controllers look the employee up
-- before they call these services, so the foreign keys of the rows hold.
pub mod Schedules
pub mod WeeklyHours
use kapis_receptionist.Prelude.{
  ℕ, Bool, not, ◌&&◌, ◌||◌, List, [], ◌∷◌, ◌++◌, map, ltb, leb, ◌==◌, if◌then◌else◌, length, any,
  keep, find,
}
use kapis_receptionist.Prelude.Action.{
  throw_if, or_throw, transaction, pure, gets, modify, ◌>>=◌, Action, ◌>>◌,
}
use kapis_receptionist.Directory.{EmployeeTimeOff, WorkingHours}
use kapis_receptionist.Rbac.{AccessTokenPayload}

pub record WorkingHoursEntryInput : Type 0 where
  pub day_of_week : ℕ
  pub start_time : ℕ
  pub end_time : ℕ
  pub is_active : Bool

pub record CreateEmployeeTimeOffInput : Type 0 where
  pub start_date : ℕ
  pub end_date : ℕ

pub data EmployeeError : Type 0 where
  invalid_day_of_week : ℕ → EmployeeError
  invalid_entry_times : ℕ → EmployeeError
  invalid_time_off_range : EmployeeError
  tenant_resource_not_found : EmployeeError

-- The audited actions, with the employee, the actor, the tenant and the metadata.
pub data EmployeeEvent : Type 0 where
  working_hours_updated : ℕ → ℕ → ℕ → ℕ → EmployeeEvent
  time_off_created : ℕ → ℕ → ℕ → ℕ → ℕ → EmployeeEvent
  time_off_deleted : ℕ → ℕ → ℕ → ℕ → ℕ → EmployeeEvent

pub record EmployeeStore : Type 0 where
  pub working_hours : List WorkingHours
  pub time_off : List EmployeeTimeOff
  pub audit : List EmployeeEvent

abbrev pub EmployeeAction : Type 0 → Type 0
EmployeeAction A = Action EmployeeStore EmployeeError A

unfoldable pub record_employee_event : EmployeeEvent → EmployeeAction (Unit {0})
unfolding modify
record_employee_event e = modify (λ s. record s { audit = e ∷ s.audit })

unfoldable pub validate_entries : List WorkingHoursEntryInput → EmployeeAction (Unit {0})
unfolding ◌>>=◌
validate_entries [] = pure tt
validate_entries (e ∷ es) = do
  throw_if (not (leb e.day_of_week 6)) (invalid_day_of_week e.day_of_week)
  throw_if (e.is_active && leb e.end_time e.start_time) (invalid_entry_times e.day_of_week)
  validate_entries es

abbrev pub is_hours_of : ℕ → ℕ → WorkingHours → Bool
is_hours_of tenant employee r = r.tenant_id == tenant && r.employee_id == employee

abbrev pub hours_row : ℕ → ℕ → WorkingHoursEntryInput → WorkingHours
hours_row tenant employee e = record {
  tenant_id = tenant;
  employee_id = employee;
  day_of_week = e.day_of_week;
  start_time = e.start_time;
  end_time = e.end_time;
  is_active = e.is_active;
}

-- `orderBy: [{ dayOfWeek: 'asc' }, { startTime: 'asc' }]`
abbrev pub is_before_or_with : WorkingHours → WorkingHours → Bool
is_before_or_with a b =
    ltb a.day_of_week b.day_of_week
    || a.day_of_week == b.day_of_week && leb a.start_time b.start_time

unfoldable pub insert_hours : WorkingHours → List WorkingHours → List WorkingHours
insert_hours r [] = r ∷ []
insert_hours r (x ∷ xs) = if is_before_or_with r x then r ∷ x ∷ xs else x ∷ insert_hours r xs

unfoldable pub order_hours : List WorkingHours → List WorkingHours
unfolding insert_hours
order_hours [] = []
order_hours (r ∷ rs) = insert_hours r (order_hours rs)

unfoldable pub find_all_for_employee : ℕ → ℕ → List WorkingHours → List WorkingHours
unfolding keep order_hours
find_all_for_employee tenant employee rows = order_hours (keep (is_hours_of tenant employee) rows)

-- The `deleteMany` and `createMany` of `replaceAllForEmployee`. Without entries it returns early with
-- [], which is also what the read that follows finds then.
unfoldable pub replaced_hours :
    ℕ → ℕ → List WorkingHoursEntryInput → List WorkingHours → List WorkingHours
unfolding keep
replaced_hours tenant employee entries rows =
    keep (λ r. not (is_hours_of tenant employee r)) rows ++ map (hours_row tenant employee) entries

unfoldable pub replace_all_for_employee :
    ℕ → ℕ → List WorkingHoursEntryInput → EmployeeAction (List WorkingHours)
unfolding ◌>>=◌ replaced_hours find_all_for_employee
replace_all_for_employee tenant employee entries = transaction do
  modify (λ s. record s { working_hours = replaced_hours tenant employee entries s.working_hours })
  gets (λ s. find_all_for_employee tenant employee s.working_hours)

unfoldable pub replace_working_hours :
    ℕ → ℕ → AccessTokenPayload → List WorkingHoursEntryInput → EmployeeAction (List WorkingHours)
unfolding ◌>>=◌ validate_entries replace_all_for_employee record_employee_event
replace_working_hours tenant employee actor entries = do
  validate_entries entries
  updated ← replace_all_for_employee tenant employee entries
  record_employee_event (working_hours_updated employee actor.sub tenant (length entries))
  pure updated

-- The row, with the identifier that the database generates.
abbrev pub time_off_row : ℕ → ℕ → ℕ → CreateEmployeeTimeOffInput → EmployeeTimeOff
time_off_row new_id tenant employee input = record {
  id = new_id;
  tenant_id = tenant;
  employee_id = employee;
  start_date = input.start_date;
  end_date = input.end_date;
}

unfoldable pub create_time_off :
    ℕ → ℕ → ℕ → AccessTokenPayload → CreateEmployeeTimeOffInput → EmployeeAction EmployeeTimeOff
unfolding ◌>>=◌ record_employee_event
create_time_off new_id tenant employee actor input = do
  throw_if (ltb input.end_date input.start_date) invalid_time_off_range
  modify (λ s. record s { time_off = time_off_row new_id tenant employee input ∷ s.time_off })
  record_employee_event (time_off_created employee actor.sub tenant input.start_date input.end_date)
  pure (time_off_row new_id tenant employee input)

abbrev pub is_time_off : ℕ → ℕ → ℕ → EmployeeTimeOff → Bool
is_time_off tenant employee id t =
    t.tenant_id == tenant && (t.employee_id == employee && t.id == id)

-- `deleteMany` of the repository; its throw is for a row that another request deleted in between.
unfoldable pub delete_row : ℕ → ℕ → ℕ → EmployeeAction (Unit {0})
unfolding ◌>>=◌ any keep
delete_row tenant employee id = do
  matched ← gets (λ s. any (is_time_off tenant employee id) s.time_off)
  modify
      (λ s. record s { time_off = keep (λ t. not (is_time_off tenant employee id t)) s.time_off })
  throw_if (not matched) tenant_resource_not_found

unfoldable pub delete_time_off : ℕ → ℕ → ℕ → AccessTokenPayload → EmployeeAction (Unit {0})
unfolding ◌>>=◌ find delete_row record_employee_event
delete_time_off tenant employee id actor = do
  found ← gets (λ s. find (is_time_off tenant employee id) s.time_off)
  current ← or_throw found tenant_resource_not_found
  delete_row tenant employee id
  record_employee_event
      (time_off_deleted employee actor.sub tenant current.start_date current.end_date)

-- A request that changes a schedule.
pub data ScheduleRequest : Type 0 where
  replace_hours : ℕ → ℕ → AccessTokenPayload → List WorkingHoursEntryInput → ScheduleRequest
  take_time_off : ℕ → ℕ → ℕ → AccessTokenPayload → CreateEmployeeTimeOffInput → ScheduleRequest
  drop_time_off : ℕ → ℕ → ℕ → AccessTokenPayload → ScheduleRequest

unfoldable pub change_schedule : ScheduleRequest → EmployeeStore → EmployeeStore
unfolding replace_working_hours create_time_off delete_time_off
change_schedule (replace_hours tenant employee actor entries) s =
    (replace_working_hours tenant employee actor entries s).1
change_schedule (take_time_off new_id tenant employee actor input) s =
    (create_time_off new_id tenant employee actor input s).1
change_schedule (drop_time_off tenant employee id actor) s =
    (delete_time_off tenant employee id actor s).1

unfoldable pub change_schedules : List ScheduleRequest → EmployeeStore → EmployeeStore
unfolding change_schedule
change_schedules [] s = s
change_schedules (q ∷ qs) s = change_schedules qs (change_schedule q s)
