-- ===== src/Employees/Schedules.antt =====
-- The rows that backend/src/modules/employees/application/working-hours.service.ts and
-- employee-time-off.service.ts let in.
use kapis_receptionist.Prelude.{
  ℕ, ◌≤◌, ◌<◌, ◌≡◌, Bool, true, List, [], ◌∷◌, All, refl, ◌⊎◌, inl, inr, ◌&&◌, map, arith, leb,
  Bool-cases, All-append, All-keep, ltb, keep, false,
}
use kapis_receptionist.Directory.{WorkingHours, EmployeeTimeOff}
use kapis_receptionist.Employees.{
  WorkingHoursEntryInput, EmployeeStore, validate_entries, EmployeeEvent,
  CreateEmployeeTimeOffInput, replace_all_for_employee, invalid_day_of_week, EmployeeAction,
  hours_row, create_time_off, delete_time_off, delete_row, replaced_hours, EmployeeError,
  replace_working_hours, record_employee_event, invalid_entry_times, replace_hours, drop_time_off,
  change_schedules, take_time_off, ScheduleRequest, change_schedule,
}
use kapis_receptionist.Prelude.Action.{◌>>=◌, ok, Keeps-modify, keeps_rules, Keeps, err}
use kapis_receptionist.Rbac.{AccessTokenPayload}

-- A day of the week, and an end after the start where the entry counts.
abbrev pub IsSensibleDay : ℕ → ℕ → ℕ → Bool → Type 0
IsSensibleDay day start end is_active = (day ≤ 6) × (is_active ≡ true → start < end)

abbrev IsSensible : WorkingHours → Type 0
IsSensible r = IsSensibleDay r.day_of_week r.start_time r.end_time r.is_active

abbrev pub IsSensibleEntry : WorkingHoursEntryInput → Type 0
IsSensibleEntry e = IsSensibleDay e.day_of_week e.start_time e.end_time e.is_active

abbrev IsForwards : EmployeeTimeOff → Type 0
IsForwards t = t.start_date ≤ t.end_date

abbrev pub Scheduled : EmployeeStore → Type 0
Scheduled s = All IsSensible s.working_hours × All IsForwards s.time_off

starts_before_ends :
    (b : Bool) (start end : ℕ) → (b && leb end start) ≡ false → b ≡ true → start < end
starts_before_ends b start end h e = ground arith

not_before : (start end : ℕ) → ltb end start ≡ false → start ≤ end
not_before start end h = ground arith

validate_entries-cases :
    (es : List WorkingHoursEntryInput) (s : EmployeeStore)
    → ((e : EmployeeError) × (validate_entries es s ≡ (err e, s)))
      ⊎ (validate_entries es s ≡ (ok tt, s)) × All IsSensibleEntry es
unfolding validate_entries ◌>>=◌
validate_entries-cases [] s = inr (refl, tt)
validate_entries-cases (e ∷ es) s = elim (Bool-cases (leb e.day_of_week 6)) [
  | inr outside ↦ inl (invalid_day_of_week e.day_of_week, rw outside refl)
  | inl day ↦ elim (Bool-cases (e.is_active && leb e.end_time e.start_time)) [
    | inl bad ↦ inl (invalid_entry_times e.day_of_week, rw (day, bad) refl)
    | inr good ↦ elim (validate_entries-cases es s) [
      | inl (x, p) ↦ inl (x, rw (day, good) p)
      | inr (p, h) ↦
          inr (rw (day, good) p, ((ground arith, starts_before_ends _ e.start_time _ good), h))
    ]
  ]
]

module _ (tenant employee : ℕ) where
  All-hours_row :
      (es : List WorkingHoursEntryInput)
      → All IsSensibleEntry es
      → All IsSensible (map (hours_row tenant employee) es)
  All-hours_row [] h = tt
  All-hours_row (e ∷ es) (p, h) = (p, All-hours_row es h)

  Scheduled-replaced :
      (es : List WorkingHoursEntryInput)
      → All IsSensibleEntry es
      → (s : EmployeeStore) → Scheduled s
      → Scheduled (record s { working_hours = replaced_hours tenant employee es s.working_hours })
  unfolding replaced_hours
  Scheduled-replaced es h s k = (
    All-append IsSensible _ _ (All-keep IsSensible _ s.working_hours k.0) (All-hours_row es h),
    k.1,
  )

  Keeps-replace_all_for_employee :
      (es : List WorkingHoursEntryInput)
      → All IsSensibleEntry es
      → Keeps Scheduled (replace_all_for_employee tenant employee es)
  unfolding replace_all_for_employee
  Keeps-replace_all_for_employee es h = search (keeps_rules, Keeps-modify, Scheduled-replaced)

  Keeps-record_employee_event : (e : EmployeeEvent) → Keeps Scheduled (record_employee_event e)
  unfolding record_employee_event
  Keeps-record_employee_event e = Keeps-modify _ (λ s k. k)

  Keeps-validated :
      {A : Type 0} (es : List WorkingHoursEntryInput) (m : EmployeeAction A)
      → (All IsSensibleEntry es → Keeps Scheduled m)
      → Keeps Scheduled (validate_entries es >>= λ u. m)
  unfolding ◌>>=◌
  Keeps-validated es m km = record {
    at = λ s h. elim (validate_entries-cases es s) [
      | inl (x, p) ↦ rw p h
      | inr (p, valid) ↦ rw p ((km valid).at s h)
    ];
  }

  Keeps-replace_working_hours :
      (actor : AccessTokenPayload) (es : List WorkingHoursEntryInput)
      → Keeps Scheduled (replace_working_hours tenant employee actor es)
  unfolding replace_working_hours
  Keeps-replace_working_hours actor es =
      Keeps-validated es _
        (λ h. search (keeps_rules, Keeps-replace_all_for_employee, Keeps-record_employee_event))

  Scheduled-deleted :
      (p : EmployeeTimeOff → Bool) (s : EmployeeStore)
      → Scheduled s
      → Scheduled (record s { time_off = keep p s.time_off })
  Scheduled-deleted p s h = (h.0, All-keep IsForwards p s.time_off h.1)

  Keeps-delete_row : (id : ℕ) → Keeps Scheduled (delete_row tenant employee id)
  unfolding delete_row
  Keeps-delete_row id = search (keeps_rules, Keeps-modify, Scheduled-deleted)

  Keeps-delete_time_off :
      (id : ℕ) (actor : AccessTokenPayload)
      → Keeps Scheduled (delete_time_off tenant employee id actor)
  unfolding delete_time_off
  Keeps-delete_time_off id actor =
      search (keeps_rules, Keeps-delete_row, Keeps-record_employee_event)

  Keeps-create_time_off :
      (new_id : ℕ) (actor : AccessTokenPayload) (input : CreateEmployeeTimeOffInput)
      → Keeps Scheduled (create_time_off new_id tenant employee actor input)
  unfolding create_time_off ◌>>=◌ record_employee_event
  Keeps-create_time_off new_id actor input = record {
    at = λ s h. elim (Bool-cases (ltb input.end_date input.start_date)) [
      | inl e ↦ rw e h
      | inr e ↦ rw e (h.0, (not_before _ _ e, h.1))
    ];
  }

Scheduled-change_schedule :
    (q : ScheduleRequest) (s : EmployeeStore) → Scheduled s → Scheduled (change_schedule q s)
unfolding change_schedule
Scheduled-change_schedule (replace_hours tenant employee actor es) s h =
    (Keeps-replace_working_hours tenant employee actor es).at s h
Scheduled-change_schedule (take_time_off new_id tenant employee actor input) s h =
    (Keeps-create_time_off tenant employee new_id actor input).at s h
Scheduled-change_schedule (drop_time_off tenant employee id actor) s h =
    (Keeps-delete_time_off tenant employee id actor).at s h

-- If every stored entry of working hours has a day from 0 to 6 and, where it is active, an end after
-- its start, and every stored time off ends no day before it starts, then so after any run of the
-- requests that change them, accepted or refused.
pub change_schedules-Scheduled :
    (qs : List ScheduleRequest) (s : EmployeeStore)
    → Scheduled s
    → Scheduled (change_schedules qs s)
unfolding change_schedules
change_schedules-Scheduled [] s h = h
change_schedules-Scheduled (q ∷ qs) s h =
    change_schedules-Scheduled qs (change_schedule q s) (Scheduled-change_schedule q s h)
