-- ===== src/Employees/WeeklyHours.antt =====
-- What a replacement of an employee's week stores:
-- backend/src/modules/employees/application/working-hours.service.ts.
use mathlib.Core.List.{append-nil}
use kapis_receptionist.Prelude.{
  ℕ, ◌≡◌, refl, inl, inr, Bool, not, List, [], ◌∷◌, ◌++◌, map, arith, Bool-cases, keep, ◌≤◌, ◌<◌,
  ◌≢◌, true, false, ◌&&◌, leb, All,
}
use kapis_receptionist.Employees.{
  replaced_hours, is_hours_of, WorkingHoursEntryInput, hours_row, order_hours, validate_entries,
  record_employee_event, EmployeeStore, replace_working_hours, replace_all_for_employee,
  find_all_for_employee,
}
use kapis_receptionist.Directory.{WorkingHours}
use kapis_receptionist.Employees.Schedules.{IsSensibleEntry}
use kapis_receptionist.Prelude.Action.{ok, ◌>>=◌, transaction}
use kapis_receptionist.Rbac.{AccessTokenPayload}

keep-others :
    (p : WorkingHours → Bool) (rows : List WorkingHours) → keep p (keep (λ r. not (p r)) rows) ≡ []
unfolding keep
keep-others p [] = refl
keep-others p (r ∷ rs) = elim (Bool-cases (p r)) [
  | inl e ↦ rw e (keep-others p rs)
  | inr e ↦ rw (e, e) (keep-others p rs)
]

keep-append :
    (p : WorkingHours → Bool) (xs ys : List WorkingHours)
    → keep p (xs ++ ys) ≡ keep p xs ++ keep p ys
unfolding keep
keep-append p [] ys = refl
keep-append p (x ∷ xs) ys = elim (Bool-cases (p x)) [
  | inl e ↦ rw (e, keep-append p xs ys) refl
  | inr e ↦ rw (e, keep-append p xs ys) refl
]

module _ (tenant employee : ℕ) where
  keep-rows :
      (es : List WorkingHoursEntryInput)
      → keep (is_hours_of tenant employee) (map (hours_row tenant employee) es)
        ≡ map (hours_row tenant employee) es
  unfolding keep
  keep-rows [] = refl
  keep-rows (e ∷ es) = rw (keep-rows es) (ground arith)

  keep-replaced_hours :
      (es : List WorkingHoursEntryInput) (rows : List WorkingHours)
      → keep (is_hours_of tenant employee) (replaced_hours tenant employee es rows)
        ≡ map (hours_row tenant employee) es
  unfolding replaced_hours
  keep-replaced_hours es rows =
      rw (keep-append, keep-others (is_hours_of tenant employee) rows, keep-rows es) refl

  keep-rows-other :
      (other : ℕ) (es : List WorkingHoursEntryInput)
      → employee ≢ other
      → keep (is_hours_of tenant other) (map (hours_row tenant employee) es) ≡ []
  unfolding keep
  keep-rows-other other [] ne = refl
  keep-rows-other other (e ∷ es) ne = rw (keep-rows-other other es ne) (ground arith)

  keep-kept :
      (other : ℕ) (rows : List WorkingHours)
      → employee ≢ other
      → keep (is_hours_of tenant other) (keep (λ r. not (is_hours_of tenant employee r)) rows)
        ≡ keep (is_hours_of tenant other) rows
  unfolding keep
  keep-kept other [] ne = refl
  keep-kept other (r ∷ rs) ne = ground (arith, keep-kept other rs ne)

  keep-replaced_hours-other :
      (other : ℕ) (es : List WorkingHoursEntryInput) (rows : List WorkingHours)
      → employee ≢ other
      → keep (is_hours_of tenant other) (replaced_hours tenant employee es rows)
        ≡ keep (is_hours_of tenant other) rows
  unfolding replaced_hours
  keep-replaced_hours-other other es rows ne =
      rw (keep-append, keep-kept other rows ne, keep-rows-other other es ne) (append-nil _)

in_week : (day : ℕ) → day ≤ 6 → leb day 6 ≡ true
in_week day h = ground arith

in_order : (b : Bool) (start end : ℕ) → (b ≡ true → start < end) → (b && leb end start) ≡ false
in_order true start end h = ground arith
in_order false start end h = refl

-- `leb day 6` and the second guard, of an entry that makes sense
validate_entries-passes :
    (es : List WorkingHoursEntryInput) (s : EmployeeStore)
    → All IsSensibleEntry es
    → validate_entries es s ≡ (ok tt, s)
unfolding validate_entries ◌>>=◌
validate_entries-passes [] s h = refl
validate_entries-passes (e ∷ es) s ((day, times), h) =
    rw (in_week _ day, in_order e.is_active _ _ times) (validate_entries-passes es s h)

-- A replacement of an employee's week by entries whose days are from 0 to 6, and that end after they
-- start where they are active, returns, with the entries in order of day and start. They are then
-- what is read for the employee, and what is read for another employee is as it was.
pub replace_working_hours-read :
    (tenant employee other : ℕ) (actor : AccessTokenPayload) (es : List WorkingHoursEntryInput)
    (s : EmployeeStore)
    → All IsSensibleEntry es
    → employee ≢ other
    → ((replace_working_hours tenant employee actor es s).0
        ≡ ok (order_hours (map (hours_row tenant employee) es)))
      × (find_all_for_employee tenant employee
            (replace_working_hours tenant employee actor es s).1.working_hours
          ≡ order_hours (map (hours_row tenant employee) es))
      × (find_all_for_employee tenant other
            (replace_working_hours tenant employee actor es s).1.working_hours
          ≡ find_all_for_employee tenant other s.working_hours)
unfolding replace_working_hours replace_all_for_employee record_employee_event find_all_for_employee
    ◌>>=◌ transaction
replace_working_hours-read tenant employee other actor es s h ne =
    rw
      (
        validate_entries-passes es s h,
        keep-replaced_hours,
        keep-replaced_hours-other tenant employee other es s.working_hours ne,
      )
      (refl, refl, refl)
