-- ===== src/Availability/Loops.antt =====
-- The three nested loops of `getAvailableSlots`, over employees, days and start times:
-- backend/src/modules/availability/application/availability.service.ts.
use kapis_receptionist.Prelude.{
  ℕ, zero, suc, ◌-◌, ◌/◌, Bool, ◌&&◌, List, [], ◌∷◌, ◌++◌, ltb, leb, if◌then◌else◌, any,
}
use Prim.Native.String.{◌++◌ as append}
use kapis_receptionist.Scheduling.{add_minutes, day_ms, to_date_str, get_utc_day}
use kapis_receptionist.Directory.{Employee}
use kapis_receptionist.Availability.Windows.{WorkingWindow}
use kapis_receptionist.Availability.Sorting.{AvailabilitySlot}

pub record BlockingRange : Type 0 where
  pub start : ℕ
  pub end : ℕ

abbrev pub slot_granularity_minutes : ℕ
slot_granularity_minutes = 15

-- `slotStart < range.end && range.start < slotBlockedUntil`
abbrev pub conflicts_with : ℕ → ℕ → BlockingRange → Bool
conflicts_with start blocked_until range = ltb start range.end && ltb range.start blocked_until

-- What the loops read: instants, minutes, and the rows fetched for an employee.
pub record Search : Type 0 where
  pub duration_minutes : ℕ
  pub buffer_minutes : ℕ
  pub date_from : ℕ
  pub date_to : ℕ
  pub windows : Employee → ℕ → ℕ → List WorkingWindow
  pub blocking : Employee → List BlockingRange

abbrev pub slot_at : Search → Employee → ℕ → AvailabilitySlot
slot_at q e start = record {
  employee_id = e.id;
  employee_name = append e.first_name (append " " e.last_name);
  start_time = start;
  end_time = add_minutes start q.duration_minutes;
}

abbrev pub has_conflict : Search → Employee → ℕ → Bool
has_conflict q e start =
    any (conflicts_with start (add_minutes (add_minutes start q.duration_minutes) q.buffer_minutes))
      (q.blocking e)

-- The body of the innermost loop: the slot, unless it conflicts.
unfoldable pub slot_if_free : Search → Employee → ℕ → List AvailabilitySlot
slot_if_free q e start = if has_conflict q e start then [] else slot_at q e start ∷ []

-- The innermost loop, with fuel.
unfoldable pub start_loop : ℕ → Search → Employee → WorkingWindow → ℕ → List AvailabilitySlot
unfolding slot_if_free
start_loop zero q e w start = []
start_loop (suc fuel) q e w start =
    let rest =
      slot_if_free q e start
      ++ start_loop fuel q e w (add_minutes start slot_granularity_minutes) in
    if leb (add_minutes start q.duration_minutes) w.end then rest else []

-- A round for every quarter of an hour in the window, and one for the test that ends the loop.
abbrev pub start_fuel : WorkingWindow → ℕ
start_fuel w = suc (suc ((w.end - w.start) / 900000))

unfoldable pub window_slots : Search → Employee → List WorkingWindow → List AvailabilitySlot
unfolding start_loop
window_slots q e [] = []
window_slots q e (w ∷ ws) = start_loop (start_fuel w) q e w w.start ++ window_slots q e ws

-- The loop over the days, with fuel.
unfoldable pub day_loop : ℕ → Search → Employee → ℕ → List AvailabilitySlot
unfolding window_slots
day_loop zero q e cursor = []
day_loop (suc fuel) q e cursor =
    let rest =
      window_slots q e (q.windows e (to_date_str cursor) (get_utc_day cursor))
      ++ day_loop fuel q e (add_minutes cursor 1440) in
    if leb cursor q.date_to then rest else []

-- A round for every day of the range, and one for the test that ends the loop.
abbrev pub day_fuel : Search → ℕ
day_fuel q = suc (suc ((q.date_to - q.date_from) / day_ms))

unfoldable pub employee_slots : Search → List Employee → List AvailabilitySlot
unfolding day_loop
employee_slots q [] = []
employee_slots q (e ∷ es) = day_loop (day_fuel q) q e q.date_from ++ employee_slots q es
