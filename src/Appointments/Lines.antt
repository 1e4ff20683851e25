-- ===== src/Appointments/Lines.antt =====
-- `buildLines`, `sumPrice` and `AppointmentServiceLineRequest` of
-- backend/src/modules/appointments/application/appointments.service.ts. The lookups read the
-- directory only, so the method is a function of it.
use kapis_receptionist.Prelude.{
  ℕ, suc, ◌+◌, Option, none, some, List, [], ◌∷◌, map, ◌==◌, if◌then◌else◌, find_last, includes,
}
use kapis_receptionist.Appointments.Tables.{LineInput}
use kapis_receptionist.Directory.{
  find_employee, Directory, Employee, services_by_ids, Service, service_ids_for_employee,
  is_active_status,
}
use kapis_receptionist.Appointments.World.{
  empty_service_lines, not_found_in_tenant, invalid_service_reference, not_eligible_for_service,
  not_active, invalid_employee_reference, BookingError,
}
use kapis_receptionist.Availability.{effective_buffer_minutes}
use kapis_receptionist.Scheduling.{add_minutes}
use kapis_receptionist.Prelude.Action.{ok, err, Result}

pub record LineRequest : Type 0 where
  pub service_id : ℕ
  pub employee_id : ℕ

-- The checks of one requested employee, in their order; the employee is what `getEmployee` gave.
unfoldable pub check_employee :
    Directory → ℕ → LineRequest → Option Employee → Result BookingError (Unit {0})
unfolding includes service_ids_for_employee
check_employee d tenant r none = err (invalid_employee_reference r.employee_id not_found_in_tenant)
check_employee d tenant r (some e) =
    if is_active_status e.status
    then if includes r.service_id (service_ids_for_employee d tenant r.employee_id)
      then ok tt
      else err (invalid_employee_reference r.employee_id not_eligible_for_service)
    else err (invalid_employee_reference r.employee_id not_active)

-- The line that is pushed for the request at `index`.
abbrev pub built_line : LineRequest → Service → ℕ → ℕ → ℕ → LineInput
built_line r service buffer index cursor = record {
  service_id = service.id;
  employee_id = r.employee_id;
  service_name_snapshot = service.name;
  duration_minutes_snapshot = service.duration_minutes;
  price_cents_snapshot = service.price_cents;
  buffer_minutes_snapshot = buffer;
  sequence_order = index;
  start_time = cursor;
  end_time = add_minutes cursor service.duration_minutes;
  blocked_until = add_minutes (add_minutes cursor service.duration_minutes) buffer;
  currency = service.currency;
}

abbrev pub after_check : Result BookingError (Unit {0}) → LineInput → Result BookingError LineInput
after_check (err e) l = err e
after_check (ok u) l = ok l

-- One turn of the loop, on what `servicesById.get` gave.
unfoldable pub build_line :
    Directory → ℕ → ℕ → ℕ → LineRequest → Option Service → Result BookingError LineInput
unfolding check_employee find_employee effective_buffer_minutes
build_line d tenant index cursor r none = err (invalid_service_reference r.service_id)
build_line d tenant index cursor r (some service) =
    after_check (check_employee d tenant r (find_employee d tenant r.employee_id)) (
      built_line r service (effective_buffer_minutes d tenant service.buffer_time_minutes) index
        cursor)

abbrev pub push_rest :
    LineInput → Result BookingError (List LineInput) → Result BookingError (List LineInput)
push_rest l (err e) = err e
push_rest l (ok ls) = ok (l ∷ ls)

-- The next turn starts where this line ends.
abbrev pub push_line :
    Result BookingError LineInput
    → (ℕ → Result BookingError (List LineInput))
    → Result BookingError (List LineInput)
push_line (err e) rest = err e
push_line (ok l) rest = push_rest l (rest l.end_time)

unfoldable pub build_loop :
    Directory → ℕ → List Service → ℕ → List LineRequest → ℕ → Result BookingError (List LineInput)
unfolding build_line find_last
build_loop d tenant found index [] cursor = ok []
build_loop d tenant found index (r ∷ rs) cursor =
    push_line
      (build_line d tenant index cursor r (find_last (λ s. s.id == r.service_id) found none))
      (build_loop d tenant found (suc index) rs)

unfoldable pub build_lines :
    Directory → ℕ → ℕ → List LineRequest → Result BookingError (List LineInput)
unfolding build_loop services_by_ids
build_lines d tenant start_time [] = err empty_service_lines
build_lines d tenant start_time (r ∷ rs) =
    build_loop d tenant (services_by_ids d tenant (map (λ q. q.service_id) (r ∷ rs))) 0 (r ∷ rs)
      start_time

unfoldable pub sum_price : List LineInput → ℕ
sum_price [] = 0
sum_price (l ∷ ls) = l.price_cents_snapshot + sum_price ls
