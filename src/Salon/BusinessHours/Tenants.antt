-- ===== src/Salon/BusinessHours/Tenants.antt =====
-- One tenant's weekly hours, and a replacement of another tenant's:
-- backend/src/modules/salon/application/business-hours.service.ts.
use kapis_receptionist.Prelude.Action.{Keeps, Keeps-throw, Keeps-modify, Keeps-pure, keeps_rules}
use kapis_receptionist.Prelude.{
  ℕ, ◌≡◌, refl, ◌∙◌, ◌≢◌, Option, none, some, List, [], ◌∷◌, arith, ◌==◌, keep,
}
use kapis_receptionist.Salon.BusinessHours.{
  replace_all, InvalidSet, throw_found, upsert_day, validate_day_set, Store, get_business_hours,
  replace_business_hours, BusinessHoursDayInput,
}
use kapis_receptionist.Directory.{BusinessHours}

keep-upsert_day :
    (tenant other : ℕ) (d : BusinessHoursDayInput) (rows : List BusinessHours)
    → tenant ≢ other
    → keep (λ r. r.tenant_id == other) (upsert_day tenant d rows)
      ≡ keep (λ r. r.tenant_id == other) rows
unfolding keep upsert_day
keep-upsert_day tenant other d [] ne = ground arith
keep-upsert_day tenant other d (r ∷ rs) ne = ground (arith, keep-upsert_day tenant other d rs ne)

keep-replace_all :
    (tenant other : ℕ) (ds : List BusinessHoursDayInput) (rows : List BusinessHours)
    → tenant ≢ other
    → keep (λ r. r.tenant_id == other) (replace_all tenant ds rows)
      ≡ keep (λ r. r.tenant_id == other) rows
unfolding replace_all
keep-replace_all tenant other [] rows ne = refl
keep-replace_all tenant other (d ∷ ds) rows ne =
    keep-replace_all tenant other ds (upsert_day tenant d rows) ne
    ∙ keep-upsert_day tenant other d rows ne

module _ (tenant other : ℕ) (ne : tenant ≢ other) where
  abbrev SameHours : List BusinessHours → Store → Type 0
  SameHours rows s = get_business_hours s.rows other ≡ get_business_hours rows other

  Keeps-throw_found :
      (rows : List BusinessHours) (o : Option ℕ) (e : ℕ → InvalidSet)
      → Keeps (SameHours rows) (throw_found o e)
  Keeps-throw_found rows none e = Keeps-pure tt
  Keeps-throw_found rows (some d) e = Keeps-throw _

  Keeps-validate_day_set :
      (rows : List BusinessHours) (ds : List BusinessHoursDayInput)
      → Keeps (SameHours rows) (validate_day_set ds)
  unfolding validate_day_set
  Keeps-validate_day_set rows ds = search (keeps_rules, Keeps-throw_found)

  Keeps-replace_all :
      (rows : List BusinessHours) (ds : List BusinessHoursDayInput) (s : Store)
      → SameHours rows s
      → SameHours rows (record s { rows = replace_all tenant ds s.rows })
  unfolding get_business_hours
  Keeps-replace_all rows ds s h = rw (keep-replace_all tenant other ds s.rows ne) h

  Keeps-replace_business_hours :
      (rows : List BusinessHours) (actor : ℕ) (ds : List BusinessHoursDayInput)
      → Keeps (SameHours rows) (replace_business_hours tenant actor ds)
  unfolding replace_business_hours
  Keeps-replace_business_hours rows actor ds =
      search (keeps_rules, Keeps-validate_day_set, Keeps-modify, Keeps-replace_all)

-- A replacement of one tenant's weekly hours, accepted or refused, leaves the weekly hours that are
-- read for any other tenant as they were.
pub replace_business_hours-other :
    (tenant other actor : ℕ) (ds : List BusinessHoursDayInput) (s : Store)
    → tenant ≢ other
    → get_business_hours (replace_business_hours tenant actor ds s).1.rows other
      ≡ get_business_hours s.rows other
replace_business_hours-other tenant other actor ds s ne =
    (Keeps-replace_business_hours tenant other ne s.rows actor ds).at s refl
