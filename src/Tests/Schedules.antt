-- ===== src/Tests/Schedules.antt =====
-- One employee's week and days off.
use kapis_receptionist.Prelude.{◌≡◌, refl, true, List, [], ◌∷◌, map, arith}
use kapis_receptionist.Employees.{
  ScheduleRequest, change_schedules, drop_time_off, find_all_for_employee, replace_hours,
  EmployeeStore, replace_working_hours, take_time_off, order_hours, CreateEmployeeTimeOffInput,
  WorkingHoursEntryInput, hours_row,
}
use kapis_receptionist.Employees.Schedules.{Scheduled, change_schedules-Scheduled}
use kapis_receptionist.Prelude.Action.{ok, transaction}
use kapis_receptionist.Rbac.{AccessTokenPayload, owner}
use kapis_receptionist.Employees.WeeklyHours.{replace_working_hours-read}

abbrev manager : AccessTokenPayload
manager = record { sub = 5; roles = owner ∷ [] }

abbrev morning : WorkingHoursEntryInput
morning = record { day_of_week = 2; start_time = 540; end_time = 720; is_active = true }

abbrev evening : WorkingHoursEntryInput
evening = record { day_of_week = 2; start_time = 960; end_time = 1200; is_active = true }

abbrev backwards : WorkingHoursEntryInput
backwards = record { day_of_week = 3; start_time = 960; end_time = 900; is_active = true }

abbrev in_summer : CreateEmployeeTimeOffInput
in_summer = record { start_date = 200; end_date = 214 }

abbrev new_salon : EmployeeStore
new_salon = record { working_hours = []; time_off = []; audit = [] }

abbrev requests : List ScheduleRequest
requests =
    replace_hours 1 7 manager (evening ∷ morning ∷ [])
    ∷ replace_hours 1 7 manager (backwards ∷ [])
    ∷ take_time_off 40 1 7 manager in_summer
    ∷ drop_time_off 1 7 40 manager
    ∷ []

change_schedules-Scheduled_example : Scheduled (change_schedules requests new_salon)
change_schedules-Scheduled_example = change_schedules-Scheduled requests new_salon (tt, tt)

-- The refused replacement leaves the week as the first one stored it.
week_after_requests :
    find_all_for_employee 1 7 (change_schedules requests new_salon).working_hours
    ≡ hours_row 1 7 morning ∷ hours_row 1 7 evening ∷ []
unfolding find_all_for_employee change_schedules transaction
week_after_requests = refl

replace_working_hours-read_example :
    ((replace_working_hours 1 7 manager (evening ∷ morning ∷ []) new_salon).0
      ≡ ok (order_hours (map (hours_row 1 7) (evening ∷ morning ∷ []))))
    × (find_all_for_employee 1 7
          (replace_working_hours 1 7 manager (evening ∷ morning ∷ []) new_salon).1.working_hours
        ≡ order_hours (map (hours_row 1 7) (evening ∷ morning ∷ [])))
    × (find_all_for_employee 1 8
          (replace_working_hours 1 7 manager (evening ∷ morning ∷ []) new_salon).1.working_hours
        ≡ find_all_for_employee 1 8 new_salon.working_hours)
replace_working_hours-read_example =
    replace_working_hours-read 1 7 8 manager (evening ∷ morning ∷ []) new_salon
      ((ground arith, λ h. ground arith), ((ground arith, λ h. ground arith), tt)) (ground arith)
