-- ===== src/Availability/DayWindows.antt =====
-- The working windows of a date, by the salon's hours:
-- backend/src/modules/availability/application/availability.service.ts.
use kapis_receptionist.Prelude.{
  ℕ, suc, ◌*◌, ◌≤◌, ◌<◌, inl, inr, List, [], ◌∷◌, arith, In, All, append-In, zero, ◌≡◌, refl,
  Option, none, some, ◌==◌, Bool-cases, get_or, find, find-In, All-In, All-keep, find_last,
}
use kapis_receptionist.Directory.{BusinessHours, WorkingHours, EmployeeTimeOff, Holiday}
use kapis_receptionist.Availability.Windows.{
  windows_of_entries, entry_windows, WorkingWindow, windows_in_business_day,
  get_working_windows_for_date, business_window,
}
use kapis_receptionist.Scheduling.{day_ms}
use kapis_receptionist.Salon.BusinessHours.{closed_day, fill_from, get_business_hours}

-- A wall-clock time is before midnight, as "HH:mm" is.
abbrev pub HasClockTimes : BusinessHours → Type 0
HasClockTimes b = (b.start_time < 1440) × (b.end_time < 1440)

-- Each window lies within the salon's day, from opening to closing.
entry_windows-within :
    (date day : ℕ) (b w : WorkingWindow) (entry : WorkingHours)
    → In w (entry_windows date day b entry)
    → (b.start ≤ w.start) × (w.start < w.end) × (w.end ≤ b.end)
unfolding entry_windows
entry_windows-within date day b w entry h = ground arith

windows_of_entries-within :
    (date day : ℕ) (b w : WorkingWindow) (entries : List WorkingHours)
    → In w (windows_of_entries date day b entries)
    → (b.start ≤ w.start) × (w.start < w.end) × (w.end ≤ b.end)
unfolding windows_of_entries
windows_of_entries-within date day b w [] h = absurd h
windows_of_entries-within date day b w (x ∷ xs) h =
    elim (append-In w (entry_windows date day b x) _ h) [
      | inl here ↦ entry_windows-within date day b w x here
      | inr there ↦ windows_of_entries-within date day b w xs there
    ]

-- A window of a date lies on that date.
abbrev pub LiesOn : ℕ → WorkingWindow → Type 0
LiesOn date w = (date * day_ms ≤ w.start) × (w.start < w.end) × (w.end < suc date * day_ms)

find_last-HasClockTimes :
    (day : ℕ) (rows : List BusinessHours) (b found : BusinessHours)
    → HasClockTimes found
    → All HasClockTimes rows
    → HasClockTimes (get_or (find_last (λ r. r.day_of_week == day) rows (some found)) b)
unfolding find_last
find_last-HasClockTimes day [] b found k h = k
find_last-HasClockTimes day (r ∷ rs) b found k (hr, hs) = elim (Bool-cases (r.day_of_week == day)) [
  | inl e ↦ rw (e, find_last) (find_last-HasClockTimes day rs b r hr hs)
  | inr e ↦ rw (e, find_last) (find_last-HasClockTimes day rs b found k hs)
]

find_last-HasClockTimes-none :
    (day : ℕ) (rows : List BusinessHours) (b : BusinessHours)
    → HasClockTimes b
    → All HasClockTimes rows
    → HasClockTimes (get_or (find_last (λ r. r.day_of_week == day) rows none) b)
unfolding find_last
find_last-HasClockTimes-none day [] b k h = k
find_last-HasClockTimes-none day (r ∷ rs) b k (hr, hs) = elim (Bool-cases (r.day_of_week == day)) [
  | inl e ↦ rw (e, find_last) (find_last-HasClockTimes day rs b r hr hs)
  | inr e ↦ rw (e, find_last) (find_last-HasClockTimes-none day rs b k hs)
]

fill_from-HasClockTimes :
    (left day tenant : ℕ) (rows : List BusinessHours)
    → All HasClockTimes rows
    → All HasClockTimes (fill_from left day tenant rows)
unfolding fill_from
fill_from-HasClockTimes zero day tenant rows h = tt
fill_from-HasClockTimes (suc left) day tenant rows h = (
  find_last-HasClockTimes-none day rows (closed_day tenant day) (omega arith, omega arith) h,
  fill_from-HasClockTimes left (suc day) tenant rows h,
)

pub get_business_hours-HasClockTimes :
    (rows : List BusinessHours) (tenant : ℕ)
    → All HasClockTimes rows
    → All HasClockTimes (get_business_hours rows tenant)
unfolding get_business_hours
get_business_hours-HasClockTimes rows tenant h =
    fill_from-HasClockTimes 7 0 tenant _ (All-keep HasClockTimes _ rows h)

windows_in_business_day-LiesOn :
    (date day : ℕ) (b : BusinessHours) (w : WorkingWindow) (hours : List WorkingHours)
    → HasClockTimes b
    → In w (windows_in_business_day date day (some b) hours)
    → LiesOn date w
unfolding windows_in_business_day
windows_in_business_day-LiesOn date day b w hours k h = elim (Bool-cases b.is_closed) [
  | inl e ↦ absurd (rw (e, windows_in_business_day) at h)
  | inr e ↦ omega (
    arith,
    k,
    windows_of_entries-within date day (business_window date b) w hours
        (rw (e, windows_in_business_day) at h),
  )
]

closed-In :
    (date day : ℕ) (w : WorkingWindow) (hours : List WorkingHours)
    → ¬ In w (windows_in_business_day date day none hours)
unfolding windows_in_business_day
closed-In date day w hours h = h

pub windows-LiesOn :
    (date day : ℕ) (bs : List BusinessHours) (hs : List Holiday) (ts : List EmployeeTimeOff)
    (hours : List WorkingHours) (w : WorkingWindow)
    → All HasClockTimes bs
    → In w (get_working_windows_for_date date day bs hs ts hours)
    → LiesOn date w
unfolding get_working_windows_for_date
windows-LiesOn date day bs hs ts hours w k h =
    go (find (λ b. b.day_of_week == day) bs) refl (ground arith)
  where
    go :
        (o : Option BusinessHours)
        → find (λ b. b.day_of_week == day) bs ≡ o
        → In w (windows_in_business_day date day (find (λ b. b.day_of_week == day) bs) hours)
        → LiesOn date w
    go none e m = absurd (closed-In date day w hours (rw e at m))
    go (some b) e m =
        windows_in_business_day-LiesOn date day b w hours
          (All-In HasClockTimes bs b k (find-In _ bs e).0) (rw e at m)
