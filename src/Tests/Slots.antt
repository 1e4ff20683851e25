-- ===== src/Tests/Slots.antt =====
-- Slots of the salon of Fixtures.
use kapis_receptionist.Prelude.{
  ℕ, ◌+◌, ◌≤◌, ◌<◌, ◌≡◌, refl, ◌↔◌, inl, true, none, List, [], ◌∷◌, arith, In,
}
use kapis_receptionist.Availability.Buffer.{is_window_available_buffer}
use kapis_receptionist.Scheduling.Months.{
  period_end, month_of_within, period_start, month_of, period_bounds, days_in_month, month_start,
}
use kapis_receptionist.Availability.Offered.{employee_slots_iff, OfferedBy}
use kapis_receptionist.Tests.Fixtures.{haircut, anna, nine, salon}
use kapis_receptionist.Availability.Bookable.{
  get_available_slots-IsSortedByStart, get_available_slots-accepted,
}
use kapis_receptionist.Availability.{
  search_of, effective_buffer_minutes, is_window_available, GetAvailableSlotsInput,
  get_available_slots, get_eligible_active_employees, get_blocking_ranges,
}
use kapis_receptionist.Availability.Sorting.{AvailabilitySlot, IsSortedByStart, sort_by_start}
use kapis_receptionist.Availability.Loops.{employee_slots}
use kapis_receptionist.Directory.{services_by_ids, list_time_off, get_working_hours, list_holidays}
use kapis_receptionist.Availability.Windows.{get_working_windows_for_date}
use kapis_receptionist.Salon.BusinessHours.{get_business_hours}

abbrev thursday : GetAvailableSlotsInput
thursday = record { service_id = 3; employee_id = none; date_from = 7; date_to = 7 }

abbrev slot_from : ℕ → AvailabilitySlot
slot_from start = record {
  employee_id = 7;
  employee_name = "Anna Ek";
  start_time = start;
  end_time = start + 1800000;
}

abbrev three_slots : List AvailabilitySlot
three_slots = slot_from nine ∷ slot_from (nine + 900000) ∷ slot_from (nine + 1800000) ∷ []

get_available_slots-accepted_example :
    is_window_available salon [] 1 7 nine (nine + 1800000) (effective_buffer_minutes salon 1 10)
    ≡ true
unfolding get_available_slots services_by_ids sort_by_start employee_slots
    get_eligible_active_employees get_working_windows_for_date list_holidays list_time_off
    get_business_hours get_working_hours get_blocking_ranges
get_available_slots-accepted_example =
    get_available_slots-accepted salon [] 1 thursday haircut [] three_slots (slot_from nine)
      ((omega arith, omega arith), tt) (tt, tt) refl refl (inl refl)

get_available_slots-IsSortedByStart_example : IsSortedByStart three_slots
unfolding get_available_slots services_by_ids sort_by_start employee_slots
    get_eligible_active_employees get_working_windows_for_date list_holidays list_time_off
    get_business_hours get_working_hours get_blocking_ranges
get_available_slots-IsSortedByStart_example =
    get_available_slots-IsSortedByStart salon [] 1 thursday haircut [] three_slots refl refl

employee_slots_iff_example :
    In (slot_from nine) (employee_slots (search_of salon [] 1 thursday haircut) (anna ∷ []))
    ↔ OfferedBy (search_of salon [] 1 thursday haircut) (anna ∷ []) (slot_from nine)
employee_slots_iff_example =
    employee_slots_iff (search_of salon [] 1 thursday haircut) (anna ∷ []) (slot_from nine)

is_window_available_buffer_example :
    is_window_available salon [] 1 7 nine (nine + 1800000) 45
    ≡ is_window_available salon [] 1 7 nine (nine + 1800000) 0
is_window_available_buffer_example =
    is_window_available_buffer salon [] 1 7 nine (nine + 1800000) 45

period_bounds_example : (period_start nine ≤ nine) × (nine < period_end nine)
period_bounds_example = period_bounds nine

month_of_within_example : month_of (nine + 86400000) ≡ month_of nine
unfolding period_start period_end days_in_month month_start month_of
month_of_within_example = month_of_within nine (nine + 86400000) (omega arith) (omega arith)
