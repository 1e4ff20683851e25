-- ===== src/Availability/Offered.antt =====
-- The offers of the loops of `getAvailableSlots`, described by themselves:
-- backend/src/modules/availability/application/availability.service.ts.
use kapis_receptionist.Scheduling.{add_minutes, day_ms, to_date_str, get_utc_day}
use kapis_receptionist.Directory.{Employee}
use kapis_receptionist.Availability.Windows.{WorkingWindow}
use kapis_receptionist.Availability.Sorting.{AvailabilitySlot}
use kapis_receptionist.Availability.Loops.{
  Search, slot_at, has_conflict, slot_if_free, start_loop, employee_slots, day_fuel, window_slots,
  day_loop, start_fuel,
}
use kapis_receptionist.Prelude.{
  ℕ, zero, suc, ◌+◌, ◌*◌, ◌≤◌, ◌<◌, ◌≡◌, refl, inl, inr, true, false, [], ◌∷◌, arith, leb,
  Bool-cases, In, In-append, append-In, ◌↔◌, List,
}

-- A start of the grid of a window at which the service fits and nothing conflicts.
pub record StartOffer (q : Search) (e : Employee) (w : WorkingWindow) (from : ℕ)
    (s : AvailabilitySlot) : Type 0 where
  pub step : ℕ
  pub start : ℕ
  pub on_grid : start ≡ from + step * 900000
  pub fits : start + q.duration_minutes * 60000 ≤ w.end
  pub free : has_conflict q e start ≡ false
  pub is_slot : s ≡ slot_at q e start

-- Such a start in a window of a day of the range.
pub record Offer (q : Search) (e : Employee) (from : ℕ) (s : AvailabilitySlot) : Type 0 where
  pub day : ℕ
  pub cursor : ℕ
  pub window : WorkingWindow
  pub on_day : cursor ≡ from + day * day_ms
  pub in_range : cursor ≤ q.date_to
  pub worked : In window (q.windows e (to_date_str cursor) (get_utc_day cursor))
  pub offer : StartOffer q e window window.start s

slot_if_free_sound :
    (q : Search) (e : Employee) (start : ℕ) (s : AvailabilitySlot)
    → In s (slot_if_free q e start)
    → (has_conflict q e start ≡ false) × (s ≡ slot_at q e start)
unfolding slot_if_free
slot_if_free_sound q e start s h = elim (Bool-cases (has_conflict q e start)) [
  | inl c ↦ absurd (rw c at h)
  | inr c ↦
      let h' : In s (slot_at q e start ∷ []) = rw c at h in
      (c, elim h' [ inl same ↦ same | inr nothing ↦ absurd nothing ])
]

slot_if_free_complete :
    (q : Search) (e : Employee) (start : ℕ)
    → has_conflict q e start ≡ false
    → In (slot_at q e start) (slot_if_free q e start)
unfolding slot_if_free
slot_if_free_complete q e start c = rw c (inl refl)

start_loop_sound :
    (fuel : ℕ) (q : Search) (e : Employee) (w : WorkingWindow) (from : ℕ) (s : AvailabilitySlot)
    → In s (start_loop fuel q e w from)
    → StartOffer q e w from s
unfolding start_loop
start_loop_sound zero q e w from s h = absurd h
start_loop_sound (suc fuel) q e w from s h =
    elim (Bool-cases (leb (add_minutes from q.duration_minutes) w.end)) [
      | inl fits ↦ elim (append-In s (slot_if_free q e from) _ (rw (fits, start_loop) at h)) [
        | inl now ↦
            let (c, same) = slot_if_free_sound q e from s now in
            record {
              step = 0;
              start = from;
              on_grid = omega arith;
              fits = ground arith;
              free = c;
              is_slot = same;
            }
        | inr later ↦
            let o = start_loop_sound fuel q e w (add_minutes from 15) s later in
            record {
              step = suc o.step;
              start = o.start;
              on_grid = omega (arith, o.on_grid);
              fits = o.fits;
              free = o.free;
              is_slot = o.is_slot;
            }
      ]
      | inr over ↦ absurd (rw (over, start_loop) at h)
    ]

start_loop_complete :
    (fuel : ℕ) (q : Search) (e : Employee) (w : WorkingWindow) (from step start : ℕ)
    → start ≡ from + step * 900000
    → start + q.duration_minutes * 60000 ≤ w.end
    → has_conflict q e start ≡ false
    → step < fuel
    → In (slot_at q e start) (start_loop fuel q e w from)
unfolding start_loop
start_loop_complete zero q e w from step start g f c h = absurd (omega arith)
start_loop_complete (suc fuel) q e w from zero start g f c h =
    let same : start ≡ from = omega arith in
    let fits : leb (add_minutes from q.duration_minutes) w.end ≡ true = ground arith in
    rw (fits, start_loop)
      (In-append _ (slot_if_free q e from) _
        (inl (rw same (slot_if_free_complete q e from (rw same at c)))))
start_loop_complete (suc fuel) q e w from (suc step) start g f c h =
    let fits : leb (add_minutes from q.duration_minutes) w.end ≡ true = ground arith in
    rw (fits, start_loop)
      (In-append _ (slot_if_free q e from) _ (
        inr (
          start_loop_complete fuel q e w (add_minutes from 15) step start (omega arith) f c
            (omega arith))))

window_slots_sound :
    (q : Search) (e : Employee) (ws : List WorkingWindow) (s : AvailabilitySlot)
    → In s (window_slots q e ws)
    → (w : WorkingWindow) × In w ws × StartOffer q e w w.start s
unfolding window_slots
window_slots_sound q e [] s h = absurd h
window_slots_sound q e (w ∷ ws) s h =
    elim (append-In s (start_loop (start_fuel w) q e w w.start) _ h) [
      | inl here ↦ (w, inl refl, start_loop_sound (start_fuel w) q e w w.start s here)
      | inr there ↦ let (v, m, o) = window_slots_sound q e ws s there in (v, inr m, o)
    ]

window_slots_complete :
    (q : Search) (e : Employee) (ws : List WorkingWindow) (w : WorkingWindow) (s : AvailabilitySlot)
    → In w ws
    → StartOffer q e w w.start s
    → In s (window_slots q e ws)
unfolding window_slots
window_slots_complete q e [] w s m o = absurd m
window_slots_complete q e (v ∷ ws) w s (inl same) o =
    In-append s (start_loop (start_fuel v) q e v v.start) _ (
      inl (
        rw (o.is_slot, ← same)
          (start_loop_complete (start_fuel w) q e w w.start o.step o.start o.on_grid o.fits o.free
            (omega (arith, o.on_grid, o.fits)))))
window_slots_complete q e (v ∷ ws) w s (inr m) o =
    In-append s (start_loop (start_fuel v) q e v v.start) _
      (inr (window_slots_complete q e ws w s m o))

day_loop_sound :
    (fuel : ℕ) (q : Search) (e : Employee) (from : ℕ) (s : AvailabilitySlot)
    → In s (day_loop fuel q e from)
    → Offer q e from s
unfolding day_loop
day_loop_sound zero q e from s h = absurd h
day_loop_sound (suc fuel) q e from s h = elim (Bool-cases (leb from q.date_to)) [
  | inl within ↦
      elim (append-In s (window_slots q e (q.windows e (to_date_str from) (get_utc_day from))) _
        (rw (within, day_loop) at h)) [
          | inl today ↦
              let (w, m, o) = window_slots_sound q e _ s today in
              record {
                day = 0;
                cursor = from;
                window = w;
                on_day = omega arith;
                in_range = ground arith;
                worked = m;
                offer = o;
              }
          | inr later ↦
              let o = day_loop_sound fuel q e (add_minutes from 1440) s later in
              record {
                day = suc o.day;
                cursor = o.cursor;
                window = o.window;
                on_day = omega (arith, o.on_day);
                in_range = o.in_range;
                worked = o.worked;
                offer = o.offer;
              }
        ]
  | inr over ↦ absurd (rw (over, day_loop) at h)
]

day_loop_complete :
    (fuel : ℕ) (q : Search) (e : Employee) (from day cursor : ℕ) (w : WorkingWindow)
    (s : AvailabilitySlot)
    → cursor ≡ from + day * day_ms
    → cursor ≤ q.date_to
    → In w (q.windows e (to_date_str cursor) (get_utc_day cursor))
    → StartOffer q e w w.start s
    → day < fuel
    → In s (day_loop fuel q e from)
unfolding day_loop
day_loop_complete zero q e from day cursor w s d r m o h = absurd (omega arith)
day_loop_complete (suc fuel) q e from zero cursor w s d r m o h =
    let same : cursor ≡ from = omega arith in
    let within : leb from q.date_to ≡ true = ground arith in
    rw (within, day_loop) (In-append s _ _ (inl (window_slots_complete q e _ w s (rw same at m) o)))
day_loop_complete (suc fuel) q e from (suc day) cursor w s d r m o h =
    let within : leb from q.date_to ≡ true = ground arith in
    rw (within, day_loop)
      (In-append s (window_slots q e (q.windows e (to_date_str from) (get_utc_day from))) _ (
        inr (
          day_loop_complete fuel q e (add_minutes from 1440) day cursor w s (omega arith) r m o
            (omega arith))))

-- The search offers a slot to one of the employees.
abbrev pub OfferedBy : Search → List Employee → AvailabilitySlot → Type 0
OfferedBy q es s = (e : Employee) × In e es × Offer q e q.date_from s

employee_slots_sound :
    (q : Search) (es : List Employee) (s : AvailabilitySlot)
    → In s (employee_slots q es)
    → OfferedBy q es s
unfolding employee_slots
employee_slots_sound q [] s h = absurd h
employee_slots_sound q (e ∷ es) s h =
    elim (append-In s (day_loop (day_fuel q) q e q.date_from) _ h) [
      | inl here ↦ (e, inl refl, day_loop_sound (day_fuel q) q e q.date_from s here)
      | inr there ↦ let (x, m, o) = employee_slots_sound q es s there in (x, inr m, o)
    ]

employee_slots_complete :
    (q : Search) (es : List Employee) (e : Employee) (s : AvailabilitySlot)
    → In e es
    → Offer q e q.date_from s
    → In s (employee_slots q es)
unfolding employee_slots
employee_slots_complete q [] e s m o = absurd m
employee_slots_complete q (x ∷ es) e s (inl same) o =
    In-append s (day_loop (day_fuel q) q x q.date_from) _ (
      inl (
        rw (← same) (
          day_loop_complete (day_fuel q) q e q.date_from o.day o.cursor o.window s o.on_day
            o.in_range o.worked o.offer (omega (arith, o.on_day, o.in_range)))))
employee_slots_complete q (x ∷ es) e s (inr m) o =
    In-append s (day_loop (day_fuel q) q x q.date_from) _
      (inr (employee_slots_complete q es e s m o))

-- The three loops list exactly the offers of the search: every one, and nothing else. In
-- particular their fuel is enough.
pub employee_slots_iff :
    (q : Search) (es : List Employee) (s : AvailabilitySlot)
    → In s (employee_slots q es) ↔ OfferedBy q es s
employee_slots_iff q es s =
    (employee_slots_sound q es s, λ (e, m, o). employee_slots_complete q es e s m o)
