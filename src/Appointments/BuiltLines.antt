-- ===== src/Appointments/BuiltLines.antt =====
-- The lines of `buildLines`, backend/src/modules/appointments/application/appointments.service.ts,
-- by the directory it looked into.
use kapis_receptionist.Prelude.{
  ℕ, suc, ◌+◌, ◌*◌, ◌≤◌, ◌≡◌, ◌⊎◌, inl, inr, Bool, true, false, Option, none, some, List, [], ◌∷◌,
  ◌==◌, find_last, In, refl, subst, not, ◌&&◌, arith, if◌then◌else◌, find-In, includes, keep-In,
  map,
}
use kapis_receptionist.Directory.{
  Service, is_active_status, Employee, Directory, find_employee, services_by_ids,
  service_ids_for_employee,
}
use kapis_receptionist.Scheduling.{minute_ms}
use kapis_receptionist.Appointments.Tables.{LineInput}
use kapis_receptionist.Appointments.Lines.{
  LineRequest, build_line, after_check, check_employee, build_loop, build_lines, push_line,
  push_rest,
}
use kapis_receptionist.Prelude.Action.{ok, err, Result, ok-injective}
use kapis_receptionist.Appointments.World.{BookingError}
use kapis_receptionist.Availability.{effective_buffer_minutes}

-- The directory lets `e` be booked for `s`: both are of the tenant and not deleted, the employee is
-- active, and the junction table assigns the service to them.
abbrev pub Bookable : Directory → ℕ → ℕ → Service → Employee → Type 0
Bookable d tenant employee s e =
    In s d.services
    × (s.tenant_id ≡ tenant)
    × (s.deleted ≡ false)
    × In e d.employees
    × (e.id ≡ employee)
    × (e.tenant_id ≡ tenant)
    × (e.deleted ≡ false)
    × (is_active_status e.status ≡ true)
    × (includes s.id (service_ids_for_employee d tenant employee) ≡ true)

-- The line of one request: of its service and employee, at `index` and from `cursor` on, with the
-- prices and times of the service.
abbrev pub IsLineOf : Directory → ℕ → ℕ → ℕ → LineRequest → LineInput → Type 0
IsLineOf d tenant index cursor q l =
    (s : Service) × (e : Employee) × Bookable d tenant q.employee_id s e
    × (s.id ≡ q.service_id)
    × (l.service_id ≡ q.service_id)
    × (l.employee_id ≡ q.employee_id)
    × (l.price_cents_snapshot ≡ s.price_cents)
    × (l.sequence_order ≡ index)
    × (l.start_time ≡ cursor)
    × (l.end_time ≡ cursor + s.duration_minutes * minute_ms)
    × (l.blocked_until ≡ l.end_time + l.buffer_minutes_snapshot * minute_ms)
    × (s.buffer_time_minutes ≤ l.buffer_minutes_snapshot)

-- One line for each request, each from where the one before it ended.
abbrev pub Consecutive : Directory → ℕ → ℕ → ℕ → List LineRequest → List LineInput → Type 0
Consecutive d tenant index cursor [] [] = Unit
Consecutive d tenant index cursor [] (l ∷ ls) = ⊥
Consecutive d tenant index cursor (q ∷ qs) [] = ⊥
Consecutive d tenant index cursor (q ∷ qs) (l ∷ ls) =
    IsLineOf d tenant index cursor q l × Consecutive d tenant (suc index) l.end_time qs ls

abbrev is_service : ℕ → Service → Bool
is_service id s = s.id == id

find_last-In :
    (id : ℕ) (xs : List Service) (o : Option Service) {s : Service}
    → find_last (is_service id) xs o ≡ some s
    → (In s xs × (s.id ≡ id)) ⊎ (o ≡ some s)
unfolding find_last
find_last-In id [] o h = inr h
find_last-In id (x ∷ xs) o {s} h =
    ground (arith, find_last-In id xs (if is_service id x then some x else o) h)

check_employee-ok :
    (d : Directory) (tenant : ℕ) (q : LineRequest) (o : Option Employee) {u : Unit {0}}
    → check_employee d tenant q o ≡ ok u
    → (e : Employee) × (o ≡ some e)
      × (is_active_status e.status ≡ true)
      × (includes q.service_id (service_ids_for_employee d tenant q.employee_id) ≡ true)
unfolding check_employee
check_employee-ok d tenant q none h = cc
check_employee-ok d tenant q (some e) h = (e, refl, ground arith, ground arith)

after_check-ok :
    (r : Result BookingError (Unit {0})) (l : LineInput) {m : LineInput}
    → after_check r l ≡ ok m
    → (r ≡ ok tt) × (l ≡ m)
after_check-ok (ok u) l h = (refl, ok-injective h)
after_check-ok (err e) l h = cc

find_employee-ok :
    (d : Directory) (tenant id : ℕ) {e : Employee}
    → find_employee d tenant id ≡ some e
    → In e d.employees × (e.id ≡ id) × (e.tenant_id ≡ tenant) × (e.deleted ≡ false)
unfolding find_employee
find_employee-ok d tenant id {e} h =
    let (i, p) =
      find-In (λ x. x.id == id && (not x.deleted && x.tenant_id == tenant)) d.employees h in
    (i, ground arith, ground arith, ground arith)

build_line-ok :
    (d : Directory) (tenant index cursor : ℕ) (q : LineRequest) (o : Option Service) {l : LineInput}
    → ((s : Service)
        → o ≡ some s
        → In s d.services × (s.tenant_id ≡ tenant) × (s.deleted ≡ false) × (s.id ≡ q.service_id))
    → build_line d tenant index cursor q o ≡ ok l
    → IsLineOf d tenant index cursor q l
unfolding build_line effective_buffer_minutes
build_line-ok d tenant index cursor q none known h = cc
build_line-ok d tenant index cursor q (some s) known h =
    let (checked, same) = after_check-ok (check_employee d tenant q _) _ h in
    let (e, found, active, assigned) = check_employee-ok d tenant q _ checked in
    let (i, e_id, e_tenant, e_deleted) = find_employee-ok d tenant q.employee_id found in
    let (j, s_tenant, s_deleted, s_id) = known s refl in
    subst (IsLineOf d tenant index cursor q) same (
      s,
      e,
      (j, s_tenant, s_deleted, i, e_id, e_tenant, e_deleted, active, rw s_id assigned),
      s_id,
      s_id,
      refl,
      refl,
      refl,
      refl,
      refl,
      refl,
      omega arith,
    )

push_rest-ok :
    (l : LineInput) (o : Result BookingError (List LineInput)) {ls : List LineInput}
    → push_rest l o ≡ ok ls
    → (ms : List LineInput) × (o ≡ ok ms) × (l ∷ ms ≡ ls)
push_rest-ok l (ok ms) h = (ms, refl, ok-injective h)
push_rest-ok l (err e) h = cc

push_line-ok :
    (r : Result BookingError LineInput) (rest : ℕ → Result BookingError (List LineInput))
    {ls : List LineInput}
    → push_line r rest ≡ ok ls
    → (l : LineInput) × (ms : List LineInput) × (r ≡ ok l)
      × (rest l.end_time ≡ ok ms)
      × (l ∷ ms ≡ ls)
push_line-ok (ok l) rest h =
    let (ms, next, same) = push_rest-ok l (rest l.end_time) h in (l, ms, refl, next, same)
push_line-ok (err e) rest h = cc

module _ (d : Directory) (tenant : ℕ) (found : List Service)
    (known : (s : Service)
      → In s found
      → In s d.services × (s.tenant_id ≡ tenant) × (s.deleted ≡ false)) where
  found_service :
      (id : ℕ) (s : Service)
      → find_last (is_service id) found none ≡ some s
      → In s d.services × (s.tenant_id ≡ tenant) × (s.deleted ≡ false) × (s.id ≡ id)
  found_service id s e = elim (find_last-In id found none e) [
    | inl (i, same) ↦ let (j, t, v) = known s i in (j, t, v, same)
    | inr absent ↦ cc
  ]

  build_loop-Consecutive :
      (qs : List LineRequest) (index cursor : ℕ) {ls : List LineInput}
      → build_loop d tenant found index qs cursor ≡ ok ls
      → Consecutive d tenant index cursor qs ls
  unfolding build_loop
  build_loop-Consecutive [] index cursor h =
      subst (Consecutive d tenant index cursor []) (ok-injective h) tt
  build_loop-Consecutive (q ∷ qs) index cursor h =
      let (l, ms, first, rest, same) = push_line-ok (build_line d tenant index cursor q _) _ h in
      subst (Consecutive d tenant index cursor (q ∷ qs)) same (
        build_line-ok d tenant index cursor q _ (found_service q.service_id) first,
        build_loop-Consecutive qs (suc index) l.end_time rest,
      )

services_by_ids-known :
    (d : Directory) (tenant : ℕ) (ids : List ℕ) (s : Service)
    → In s (services_by_ids d tenant ids)
    → In s d.services × (s.tenant_id ≡ tenant) × (s.deleted ≡ false)
unfolding services_by_ids
services_by_ids-known d tenant ids s i =
    let (j, p) = keep-In _ s d.services i in (j, ground arith, ground arith)

-- The lines that `buildLines` returns are one for each request, in order, of services and of
-- employees of the tenant that are not deleted, the employee being active and assigned to the
-- service: numbered from 0, the first from the requested start, each next one from the end of the
-- one before it, and each blocked for at least the buffer of its service after its end.
pub build_lines-Consecutive :
    (d : Directory) (tenant start : ℕ) (qs : List LineRequest) (ls : List LineInput)
    → build_lines d tenant start qs ≡ ok ls
    → Consecutive d tenant 0 start qs ls
unfolding build_lines
build_lines-Consecutive d tenant start [] ls h = cc
build_lines-Consecutive d tenant start (q ∷ qs) ls h =
    build_loop-Consecutive d tenant _
      (services_by_ids-known d tenant (map (λ r. r.service_id) (q ∷ qs))) (q ∷ qs) 0 start h
