-- ===== src/Salon/BusinessHours.antt =====
-- backend/src/modules/salon/application/business-hours.service.ts, with the upserts of
-- infrastructure/prisma-business-hours.repository.ts. A tenant has one row a day at most.
pub mod Tenants
use kapis_receptionist.Prelude.{
  ℕ, zero, suc, Bool, true, false, ◌&&◌, not, Option, none, some, List, [], ◌∷◌, leb, ◌==◌,
  if◌then◌else◌, length, keep, get_or, find_last,
}
use kapis_receptionist.Prelude.Action.{Action, pure, throw, modify, throw_if, ◌>>=◌, ◌>>◌}
use kapis_receptionist.Directory.{BusinessHours}

pub record BusinessHoursDayInput : Type 0 where
  pub day_of_week : ℕ
  pub start_time : ℕ
  pub end_time : ℕ
  pub is_closed : Bool

-- The messages of `InvalidBusinessHoursSetException`.
pub data InvalidSet : Type 0 where
  wrong_count : ℕ → InvalidSet
  duplicate_day : ℕ → InvalidSet
  missing_day : ℕ → InvalidSet
  end_not_after_start : ℕ → InvalidSet

abbrev pub days_per_week : ℕ
days_per_week = 7

-- `SALON_BUSINESS_HOURS_UPDATED`, by the actor.
pub record Audit : Type 0 where
  pub tenant_id : ℕ
  pub actor_id : ℕ

pub record Store : Type 0 where
  pub rows : List BusinessHours
  pub audit : List Audit

abbrev pub closed_day : ℕ → ℕ → BusinessHours
closed_day tenant day = record {
  tenant_id = tenant;
  day_of_week = day;
  start_time = 0;
  end_time = 0;
  is_closed = true;
}

-- The loop of `fillMissingDays`, with the rounds that are left.
unfoldable pub fill_from : ℕ → ℕ → ℕ → List BusinessHours → List BusinessHours
unfolding find_last
fill_from zero day tenant existing = []
fill_from (suc left) day tenant existing =
    get_or (find_last (λ r. r.day_of_week == day) existing none) (closed_day tenant day)
    ∷ fill_from left (suc day) tenant existing

unfoldable pub fill_missing_days : ℕ → List BusinessHours → List BusinessHours
unfolding fill_from
fill_missing_days tenant existing = fill_from days_per_week 0 tenant existing

unfoldable pub get_business_hours : List BusinessHours → ℕ → List BusinessHours
unfolding fill_missing_days keep
get_business_hours rows tenant = fill_missing_days tenant (keep (λ r. r.tenant_id == tenant) rows)

-- `seen.has(day)`
unfoldable pub has_day : ℕ → List BusinessHoursDayInput → Bool
has_day day [] = false
has_day day (d ∷ ds) = if d.day_of_week == day then true else has_day day ds

-- The first loop of `validateDaySet`: the first day that `seen` already has.
unfoldable pub first_duplicate : List BusinessHoursDayInput → List BusinessHoursDayInput → Option ℕ
unfolding has_day
first_duplicate seen [] = none
first_duplicate seen (d ∷ ds) =
    if has_day d.day_of_week seen then some d.day_of_week else first_duplicate (d ∷ seen) ds

-- The second loop, with the rounds that are left.
unfoldable pub first_missing : ℕ → ℕ → List BusinessHoursDayInput → Option ℕ
unfolding has_day
first_missing zero day days = none
first_missing (suc left) day days =
    if has_day day days then first_missing left (suc day) days else some day

-- The third loop.
unfoldable pub first_backwards : List BusinessHoursDayInput → Option ℕ
first_backwards [] = none
first_backwards (d ∷ ds) =
    if not d.is_closed && leb d.end_time d.start_time
    then some d.day_of_week
    else first_backwards ds

abbrev pub throw_found : Option ℕ → (ℕ → InvalidSet) → Action Store InvalidSet (Unit {0})
throw_found none e = pure tt
throw_found (some day) e = throw (e day)

unfoldable pub validate_day_set : List BusinessHoursDayInput → Action Store InvalidSet (Unit {0})
unfolding first_duplicate first_missing first_backwards ◌>>=◌
validate_day_set days = do
  throw_if (not (length days == days_per_week)) (wrong_count (length days))
  throw_found (first_duplicate [] days) duplicate_day
  throw_found (first_missing days_per_week 0 days) missing_day
  throw_found (first_backwards days) end_not_after_start

abbrev is_row_of : ℕ → ℕ → BusinessHours → Bool
is_row_of tenant day r = r.tenant_id == tenant && r.day_of_week == day

abbrev pub row_of : ℕ → BusinessHoursDayInput → BusinessHours
row_of tenant d = record {
  tenant_id = tenant;
  day_of_week = d.day_of_week;
  start_time = d.start_time;
  end_time = d.end_time;
  is_closed = d.is_closed;
}

-- One `upsert` by the unique key of tenant and day.
unfoldable pub upsert_day : ℕ → BusinessHoursDayInput → List BusinessHours → List BusinessHours
upsert_day tenant d [] = row_of tenant d ∷ []
upsert_day tenant d (r ∷ rs) =
    if is_row_of tenant d.day_of_week r then row_of tenant d ∷ rs else r ∷ upsert_day tenant d rs

-- `replaceAll`
unfoldable pub replace_all :
    ℕ → List BusinessHoursDayInput → List BusinessHours → List BusinessHours
unfolding upsert_day
replace_all tenant [] rows = rows
replace_all tenant (d ∷ ds) rows = replace_all tenant ds (upsert_day tenant d rows)

-- Insertion by day of week, which keeps the order of equal days.
unfoldable pub insert_by_day : BusinessHours → List BusinessHours → List BusinessHours
insert_by_day r [] = r ∷ []
insert_by_day r (x ∷ xs) =
    if leb r.day_of_week x.day_of_week then r ∷ x ∷ xs else x ∷ insert_by_day r xs

-- `rows.sort((a, b) => a.dayOfWeek - b.dayOfWeek)` on the upserted rows
unfoldable pub sort_by_day : ℕ → List BusinessHoursDayInput → List BusinessHours
unfolding insert_by_day
sort_by_day tenant [] = []
sort_by_day tenant (d ∷ ds) = insert_by_day (row_of tenant d) (sort_by_day tenant ds)

unfoldable pub replace_business_hours :
    ℕ → ℕ → List BusinessHoursDayInput → Action Store InvalidSet (List BusinessHours)
unfolding validate_day_set replace_all sort_by_day ◌>>=◌
replace_business_hours tenant actor days = do
  validate_day_set days
  modify (λ s. record s { rows = replace_all tenant days s.rows })
  modify (λ s. record s { audit = record { tenant_id = tenant; actor_id = actor } ∷ s.audit })
  pure (sort_by_day tenant days)
