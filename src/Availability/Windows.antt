-- ===== src/Availability/Windows.antt =====
-- `getWorkingWindowsForDate` of backend/src/modules/availability/application/availability.service.ts:
-- when an employee works on a day, within the salon's hours.
use kapis_receptionist.Prelude.{
  ℕ, ◌&&◌, ◌||◌, not, Option, none, some, List, [], ◌∷◌, ltb, leb, ◌==◌, if◌then◌else◌, any, find,
  ◌++◌,
}
use kapis_receptionist.Scheduling.{combine_date_and_time}
use kapis_receptionist.Directory.{BusinessHours, Holiday, WorkingHours, EmployeeTimeOff}

pub record WorkingWindow : Type 0 where
  pub start : ℕ
  pub end : ℕ

-- One round of the loop over the working hours: the overlap with the salon's day, if there is any.
unfoldable pub entry_windows : ℕ → ℕ → WorkingWindow → WorkingHours → List WorkingWindow
entry_windows date day business entry =
    let from = combine_date_and_time date entry.start_time in
    let to = combine_date_and_time date entry.end_time in
    let start = if ltb business.start from then from else business.start in
    let end = if ltb to business.end then to else business.end in
    if not (entry.day_of_week == day) || not entry.is_active
    then []
    else if ltb start end
    then record { start = start; end = end } ∷ []
    else []

unfoldable pub windows_of_entries : ℕ → ℕ → WorkingWindow → List WorkingHours → List WorkingWindow
unfolding entry_windows
windows_of_entries date day business [] = []
windows_of_entries date day business (entry ∷ entries) =
    entry_windows date day business entry ++ windows_of_entries date day business entries

abbrev pub business_window : ℕ → BusinessHours → WorkingWindow
business_window date b = record {
  start = combine_date_and_time date b.start_time;
  end = combine_date_and_time date b.end_time;
}

unfoldable pub windows_in_business_day :
    ℕ → ℕ → Option BusinessHours → List WorkingHours → List WorkingWindow
unfolding windows_of_entries
windows_in_business_day date day none hours = []
windows_in_business_day date day (some b) hours =
    if b.is_closed then [] else windows_of_entries date day (business_window date b) hours

unfoldable pub get_working_windows_for_date :
    ℕ
    → ℕ
    → List BusinessHours
    → List Holiday
    → List EmployeeTimeOff
    → List WorkingHours
    → List WorkingWindow
unfolding windows_in_business_day any find
get_working_windows_for_date date day business_hours holidays time_off hours =
    if any (λ h. h.date == date) holidays
    then []
    else if any (λ t. leb t.start_date date && leb date t.end_date) time_off
    then []
    else windows_in_business_day date day (find (λ b. b.day_of_week == day) business_hours) hours
