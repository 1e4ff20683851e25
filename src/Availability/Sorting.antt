-- ===== src/Availability/Sorting.antt =====
-- The slots that are offered, and the final sort by start time:
-- backend/src/modules/availability/application/availability.service.ts.
use kapis_receptionist.Prelude.{ℕ, ◌≤◌, List, [], ◌∷◌, leb, if◌then◌else◌, String, arith, In}

pub record AvailabilitySlot : Type 0 where
  pub employee_id : ℕ
  pub employee_name : String
  pub start_time : ℕ
  pub end_time : ℕ

unfoldable pub insert_by_start : AvailabilitySlot → List AvailabilitySlot → List AvailabilitySlot
insert_by_start s [] = s ∷ []
insert_by_start s (x ∷ xs) =
    if leb s.start_time x.start_time then s ∷ x ∷ xs else x ∷ insert_by_start s xs

-- `slots.sort((a, b) => a.startTime.getTime() - b.startTime.getTime())`: equal starts keep their order.
unfoldable pub sort_by_start : List AvailabilitySlot → List AvailabilitySlot
unfolding insert_by_start
sort_by_start [] = []
sort_by_start (s ∷ ss) = insert_by_start s (sort_by_start ss)

-- No slot of the list starts before `t`.
abbrev StartsFrom : ℕ → List AvailabilitySlot → Type 0
StartsFrom t [] = Unit {0}
StartsFrom t (x ∷ xs) = t ≤ x.start_time

abbrev pub IsSortedByStart : List AvailabilitySlot → Type 0
IsSortedByStart [] = Unit {0}
IsSortedByStart (x ∷ xs) = StartsFrom x.start_time xs × IsSortedByStart xs

insert_by_start-StartsFrom :
    (t : ℕ) (s : AvailabilitySlot) (xs : List AvailabilitySlot)
    → t ≤ s.start_time
    → StartsFrom t xs
    → StartsFrom t (insert_by_start s xs)
unfolding insert_by_start
insert_by_start-StartsFrom t s [] h k = h
insert_by_start-StartsFrom t s (x ∷ xs) h k = ground arith

insert_by_start-IsSortedByStart :
    (s : AvailabilitySlot) (xs : List AvailabilitySlot)
    → IsSortedByStart xs
    → IsSortedByStart (insert_by_start s xs)
unfolding insert_by_start
insert_by_start-IsSortedByStart s [] h = (tt, tt)
insert_by_start-IsSortedByStart s (x ∷ xs) h =
    ground (
      arith,
      insert_by_start-IsSortedByStart s xs h.1,
      insert_by_start-StartsFrom x.start_time s xs,
    )

pub sort_by_start-IsSortedByStart :
    (ss : List AvailabilitySlot) → IsSortedByStart (sort_by_start ss)
unfolding sort_by_start
sort_by_start-IsSortedByStart [] = tt
sort_by_start-IsSortedByStart (s ∷ ss) =
    insert_by_start-IsSortedByStart s (sort_by_start ss) (sort_by_start-IsSortedByStart ss)

insert-In :
    (y s : AvailabilitySlot) (xs : List AvailabilitySlot)
    → In y (insert_by_start s xs)
    → In y (s ∷ xs)
unfolding insert_by_start
insert-In y s [] h = h
insert-In y s (x ∷ xs) h = ground (arith, insert-In y s xs)

In-insert :
    (y s : AvailabilitySlot) (xs : List AvailabilitySlot)
    → In y (s ∷ xs)
    → In y (insert_by_start s xs)
unfolding insert_by_start
In-insert y s [] h = h
In-insert y s (x ∷ xs) h = ground (arith, In-insert y s xs)

-- Sorting loses no slot and makes none up.
pub sort-In :
    (y : AvailabilitySlot) (ss : List AvailabilitySlot) → In y (sort_by_start ss) → In y ss
unfolding sort_by_start
sort-In y [] h = h
sort-In y (s ∷ ss) h = ground (arith, insert-In y s (sort_by_start ss) h, sort-In y ss)

pub In-sort :
    (y : AvailabilitySlot) (ss : List AvailabilitySlot) → In y ss → In y (sort_by_start ss)
unfolding sort_by_start
In-sort y [] h = h
In-sort y (s ∷ ss) h = ground (arith, In-insert y s (sort_by_start ss), In-sort y ss)
