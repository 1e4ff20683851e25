-- ===== src/Availability/Bookable.antt =====
-- The slots of `getAvailableSlots` at booking time, against `isWindowAvailable`:
-- backend/src/modules/availability/application/availability.service.ts.
use kapis_receptionist.Prelude.{
  ℕ, ◌≤◌, ◌≡◌, ◌≢◌, inl, inr, true, false, not, ◌&&◌, Option, some, List, [], ◌∷◌, arith, ◌==◌,
  Bool-cases, length, any, find, In, All, All-In, In-keep, keep-In, In-any, any-In, take-In, map-In,
  In-map, ◌/◌, ◌+◌, ◌%◌, sym, ap, subst, refl, leb, ◌∙◌,
}
use kapis_receptionist.Rows.{LineRow}
use kapis_receptionist.Directory.{
  Directory, Employee, is_active_status, employee_ids_for_service, Service, find_employee,
  services_by_ids, list_holidays, get_working_hours, list_time_off,
}
use kapis_receptionist.Availability.Loops.{BlockingRange, conflicts_with, Search, employee_slots}
use kapis_receptionist.Availability.{
  get_eligible_active_employees, get_blocking_ranges, only_id, GetAvailableSlotsInput,
  is_window_free, search_of, get_available_slots, AvailabilityError, is_window_available,
  slots_of_service, effective_buffer_minutes, is_range_within_cap, date_range_too_large,
}
use kapis_receptionist.Availability.Offered.{Offer, employee_slots_iff}
use kapis_receptionist.Scheduling.{to_date_str, day_ms, add_minutes, get_utc_day}
use kapis_receptionist.Availability.DayWindows.{
  HasClockTimes, LiesOn, get_business_hours-HasClockTimes, windows-LiesOn,
}
use kapis_receptionist.Availability.Sorting.{
  AvailabilitySlot, sort-In, sort_by_start, sort_by_start-IsSortedByStart, IsSortedByStart,
}
use kapis_receptionist.Prelude.Action.{err, ok, Result, ok-injective}
use kapis_receptionist.Salon.BusinessHours.{get_business_hours}
use kapis_receptionist.Availability.Windows.{WorkingWindow, get_working_windows_for_date}

-- `id` is the primary key of the table.
abbrev pub HasDistinctIds : List Employee → Type 0
HasDistinctIds [] = Unit {0}
HasDistinctIds (e ∷ es) = All (λ x. x.id ≢ e.id) es × HasDistinctIds es

active_of_eligible :
    (d : Directory) (tenant service : ℕ) (only : Option ℕ) (e : Employee)
    → In e (get_eligible_active_employees d tenant service only)
    → In e d.employees
      × (e.tenant_id ≡ tenant)
      × (e.deleted ≡ false)
      × (is_active_status e.status ≡ true)
unfolding get_eligible_active_employees
active_of_eligible d tenant service only e h =
    let ids = only_id only (employee_ids_for_service d tenant service) in
    let (m, t) = keep-In _ e d.employees (take-In (length ids) e _ h) in
    (m, ground arith, ground arith, ground arith)

-- With distinct identifiers an employee is found under their own.
find-eq_self :
    (tenant : ℕ) (es : List Employee) (e : Employee)
    → HasDistinctIds es
    → In e es
    → e.tenant_id ≡ tenant
    → e.deleted ≡ false
    → find (λ x. x.id == e.id && (not x.deleted && x.tenant_id == tenant)) es ≡ some e
unfolding find
find-eq_self tenant [] e u m t l = absurd m
find-eq_self tenant (x ∷ es) e (ux, u) (inl same) t l = rw (← same) (ground arith)
find-eq_self tenant (x ∷ es) e (ux, u) (inr m) t l =
    let apart : e.id ≢ x.id = All-In (λ y. y.id ≢ x.id) es e ux m in
    ground (arith, find-eq_self tenant es e u m t l)

-- A range that conflicts and is fetched for the window is fetched for any larger period too.
blocking_range-within :
    (lines : List LineRow) (tenant employee start end from to : ℕ) (r : BlockingRange)
    → from ≤ start
    → end ≤ to
    → In r (get_blocking_ranges lines tenant employee start end)
    → In r (get_blocking_ranges lines tenant employee from to)
unfolding get_blocking_ranges
blocking_range-within lines tenant employee start end from to r lo hi h =
    let (row, m, same) = map-In _ r _ h in
    let (there, t) = keep-In _ row lines m in
    rw same (In-map _ row _ (In-keep _ row lines there (ground arith)))

no_conflict-within :
    (lines : List LineRow) (tenant employee start end from to blocked : ℕ)
    → from ≤ start
    → end ≤ to
    → any (conflicts_with start blocked) (get_blocking_ranges lines tenant employee from to) ≡ false
    → any (conflicts_with start blocked) (get_blocking_ranges lines tenant employee start end)
      ≡ false
no_conflict-within lines tenant employee start end from to blocked lo hi free =
    elim (Bool-cases
      (any (conflicts_with start blocked) (get_blocking_ranges lines tenant employee start end))) [
        | inr e ↦ e
        | inl e ↦
            let (r, m, c) = any-In _ _ e in
            let found : any (conflicts_with start blocked)
                  (get_blocking_ranges lines tenant employee from to)
                ≡ true =
              In-any _ r _ (blocking_range-within lines tenant employee start end from to r lo hi m)
                c in
            cc
      ]

-- An offered start lies on the day whose windows it was taken from.
abbrev pub SameDay : ℕ → ℕ → Type 0
SameDay t u = t / day_ms ≡ u / day_ms

window_free :
    (d : Directory) (lines : List LineRow) (tenant employee start end buffer : ℕ)
    (w : WorkingWindow)
    → In w (
        get_working_windows_for_date
          (to_date_str start)
          (get_utc_day start)
          (get_business_hours d.business_hours tenant)
          (list_holidays d tenant)
          (list_time_off d tenant employee)
          (get_working_hours d tenant employee))
    → w.start ≤ start
    → end ≤ w.end
    → any
        (conflicts_with start (add_minutes end buffer))
        (get_blocking_ranges lines tenant employee start end)
      ≡ false
    → is_window_free d lines tenant employee start end buffer ≡ true
window_free d lines tenant employee start end buffer w m lo hi free =
    rw (In-any (λ v. leb v.start start && leb end v.end) w _ m (ground arith), free) refl

module _ (d : Directory) (lines : List LineRow) (tenant : ℕ) (input : GetAvailableSlotsInput)
    (service : Service) (clock : All HasClockTimes d.business_hours)
    (unique : HasDistinctIds d.employees) where
  abbrev search : Search
  search = search_of d lines tenant input service

  window_free_of_Offer :
      (e : Employee) (s : AvailabilitySlot)
      → Offer search e search.date_from s
      → is_window_free d lines tenant e.id s.start_time s.end_time search.buffer_minutes ≡ true
  window_free_of_Offer e s o =
      let so = o.offer in
      let on : LiesOn (to_date_str o.cursor) o.window =
        windows-LiesOn _ _ _ _ _ _ o.window
          (get_business_hours-HasClockTimes d.business_hours tenant clock) o.worked in
      let same : SameDay so.start o.cursor = omega (arith, on, so.on_grid, so.fits) in
      let free : any
            (conflicts_with so.start
              (add_minutes (add_minutes so.start service.duration_minutes) search.buffer_minutes))
            (get_blocking_ranges lines tenant e.id so.start
              (add_minutes so.start service.duration_minutes))
          ≡ false =
        no_conflict-within lines tenant e.id so.start
          (add_minutes so.start service.duration_minutes) search.date_from
          (add_minutes search.date_to 1440) _ (omega (arith, same, o.on_day))
          (omega (arith, on, so.fits, o.in_range, o.on_day)) so.free in
      let at_start : In o.window (search.windows e (to_date_str so.start) (get_utc_day so.start)) =
        subst (λ day. In o.window (search.windows e day ((day + 4) % 7))) (sym same) o.worked in
      rw so.is_slot (
        window_free d lines tenant e.id so.start _ _ o.window at_start (omega (arith, so.on_grid))
          so.fits free)

  accepted_of_Offer :
      (e : Employee) (s : AvailabilitySlot)
      → In e (get_eligible_active_employees d tenant input.service_id input.employee_id)
      → Offer search e search.date_from s
      → is_window_available d lines tenant s.employee_id s.start_time s.end_time
          search.buffer_minutes
        ≡ true
  unfolding is_window_available find_employee
  accepted_of_Offer e s m o =
      let (there, own, kept, active) = active_of_eligible d tenant _ _ e m in
      let same : s.employee_id ≡ e.id = ap (λ x. x.employee_id) o.offer.is_slot in
      rw (same, find-eq_self tenant d.employees e unique there own kept, active)
        (window_free_of_Offer e s o)

  accepted_of_search :
      (s : AvailabilitySlot)
      → In s (
          sort_by_start (
            employee_slots search
              (get_eligible_active_employees d tenant input.service_id input.employee_id)))
      → is_window_available d lines tenant s.employee_id s.start_time s.end_time
          search.buffer_minutes
        ≡ true
  accepted_of_search s h =
      let (e, m, o) = (employee_slots_iff search _ s).0 (sort-In s _ h) in accepted_of_Offer e s m o

returned_slots :
    (d : Directory) (lines : List LineRow) (tenant : ℕ) (input : GetAvailableSlotsInput)
    {service : Service} {others : List Service} {slots : List AvailabilitySlot}
    → services_by_ids d tenant (input.service_id ∷ []) ≡ service ∷ others
    → get_available_slots d lines tenant input ≡ ok slots
    → ◌≡◌ {A = Result AvailabilityError (List AvailabilitySlot)}
        (ok slots)
        (slots_of_service d lines tenant input (service ∷ others))
unfolding get_available_slots
returned_slots d lines tenant input {slots} found e =
    elim (Bool-cases (is_range_within_cap input.date_from input.date_to)) [
      | inl within ↦
          let returned : slots_of_service d lines tenant input
                (services_by_ids d tenant (input.service_id ∷ []))
              ≡ ok slots =
            rw (within, get_available_slots) at e in
          sym returned ∙ ap (slots_of_service d lines tenant input) found
      | inr over ↦
          let refusal : err date_range_too_large ≡ ok slots = rw (over, get_available_slots) at e in
          cc
    ]

-- Every slot that `getAvailableSlots` lists for a service passes `isWindowAvailable` for its
-- employee, with the buffer of the service, if the salon's hours are wall-clock times and the
-- employees' identifiers are distinct.
pub get_available_slots-accepted :
    (d : Directory) (lines : List LineRow) (tenant : ℕ) (input : GetAvailableSlotsInput)
    (service : Service) (others : List Service) (slots : List AvailabilitySlot)
    (s : AvailabilitySlot)
    → All HasClockTimes d.business_hours
    → HasDistinctIds d.employees
    → services_by_ids d tenant (input.service_id ∷ []) ≡ service ∷ others
    → get_available_slots d lines tenant input ≡ ok slots
    → In s slots
    → is_window_available d lines tenant s.employee_id s.start_time s.end_time
        (effective_buffer_minutes d tenant service.buffer_time_minutes)
      ≡ true
get_available_slots-accepted d lines tenant input service others slots s clock unique found e m =
    accepted_of_search d lines tenant input service clock unique s
      (subst (In s) (ok-injective (returned_slots d lines tenant input found e)) m)

-- The list of slots is in order of their start.
pub get_available_slots-IsSortedByStart :
    (d : Directory) (lines : List LineRow) (tenant : ℕ) (input : GetAvailableSlotsInput)
    (service : Service) (others : List Service) (slots : List AvailabilitySlot)
    → services_by_ids d tenant (input.service_id ∷ []) ≡ service ∷ others
    → get_available_slots d lines tenant input ≡ ok slots
    → IsSortedByStart slots
get_available_slots-IsSortedByStart d lines tenant input service others slots found e =
    let same : slots
        ≡ sort_by_start (
            employee_slots (search_of d lines tenant input service)
              (get_eligible_active_employees d tenant input.service_id input.employee_id)) =
      cc (returned_slots d lines tenant input found e) in
    rw same (sort_by_start-IsSortedByStart _)
