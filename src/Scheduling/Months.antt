-- ===== src/Scheduling/Months.antt =====
-- The calendar month of an instant, as `getUTCFullYear`, `getUTCMonth` and `Date.UTC` give it.
-- A month is counted from January 1970.
use kapis_receptionist.Prelude.{
  ℕ, zero, suc, ◌+◌, ◌-◌, ◌*◌, ◌/◌, ◌%◌, ◌≤◌, ◌<◌, ◌≡◌, refl, Bool, ◌&&◌, ◌||◌, not, arith, ltb,
  ◌==◌, if◌then◌else◌, Bool-cases, inl, inr,
}
use native.Mathlib.Decide.{dec_le, dec_lt}
use kapis_receptionist.Scheduling.{day_ms}

abbrev is_leap_year : ℕ → Bool
is_leap_year y = (y % 4 == 0 && not (y % 100 == 0)) || y % 400 == 0

abbrev days_of : ℕ → Bool → ℕ
days_of m leap =
    if m == 1
    then (if leap then 29 else 28)
    else if m == 3 || m == 5 || m == 8 || m == 10
    then 30
    else 31

unfoldable pub days_in_month : ℕ → ℕ
days_in_month m = days_of (m % 12) (is_leap_year (1970 + m / 12))

-- The first day of a month: `Date.UTC(1970, m, 1)`, in days.
unfoldable pub month_start : ℕ → ℕ
month_start zero = 0
month_start (suc m) = month_start m + days_in_month m

-- The month of the day that lies `d` days after the start of month `m`.
month_from : ℕ → ℕ → ℕ → ℕ
month_from zero m d = m
month_from (suc fuel) m d =
    let rest = month_from fuel (suc m) (d - days_in_month m) in
    if ltb d (days_in_month m) then m else rest

-- Every month has a day, so as many rounds as there are days are enough.
unfoldable pub month_of : ℕ → ℕ
unfolding month_from
month_of t = month_from (suc (t / day_ms)) 0 (t / day_ms)

-- `Date.UTC(y, m, 1)` and `Date.UTC(y, m + 1, 1)`, with `y` and `m` those of the instant.
unfoldable pub period_start : ℕ → ℕ
period_start t = month_start (month_of t) * day_ms

unfoldable pub period_end : ℕ → ℕ
period_end t = month_start (suc (month_of t)) * day_ms

days_of_pos : (m : ℕ) (leap : Bool) → 0 < days_of m leap
days_of_pos m leap = ground arith

days_in_month_pos : (m : ℕ) → 0 < days_in_month m
unfolding days_in_month
days_in_month_pos m = days_of_pos (m % 12) (is_leap_year (1970 + m / 12))

month_from_holds :
    (fuel m d : ℕ)
    → d < fuel
    → let k = month_from fuel m d in
      (month_start k ≤ month_start m + d) × (month_start m + d < month_start (suc k))
unfolding month_from month_start
month_from_holds zero m d h = absurd (omega arith)
month_from_holds (suc fuel) m d h = elim (Bool-cases (ltb d (days_in_month m))) [
  | inl e ↦ rw (e, month_from) (ground arith)
  | inr e ↦
      rw (e, month_from)
        (ground (arith, days_in_month_pos m, month_from_holds fuel (suc m) (d - days_in_month m)))
]

month_start_mono : (i j : ℕ) → i ≤ j → month_start i ≤ month_start j
unfolding month_start
month_start_mono i zero h = let e : i ≡ zero = omega arith in rw e (omega arith)
month_start_mono i (suc j) h = elim (dec_le i j) [
  | yes p ↦ omega (arith, month_start_mono i j p)
  | no p ↦ let e : i ≡ suc j = omega arith in rw e (omega arith)
]

month_start-zero : month_start 0 ≡ 0
unfolding month_start
month_start-zero = refl

month_of_bounds :
    (t : ℕ)
    → (month_start (month_of t) ≤ t / day_ms) × (t / day_ms < month_start (suc (month_of t)))
unfolding month_of
month_of_bounds t =
    omega
      (arith, month_start-zero, month_from_holds (suc (t / day_ms)) 0 (t / day_ms) (omega arith))

-- An instant lies in the month whose period is computed from it.
pub period_bounds : (t : ℕ) → (period_start t ≤ t) × (t < period_end t)
unfolding period_start period_end
period_bounds t = omega (arith, month_of_bounds t)

-- Every instant of a month's period has that month, so all its bookings are counted together.
pub month_of_within : (t u : ℕ) → period_start t ≤ u → u < period_end t → month_of u ≡ month_of t
unfolding period_start period_end
month_of_within t u lo hi = elim (dec_lt (month_of u) (month_of t)) [
  | yes p ↦
      absurd (omega (arith, month_of_bounds u, month_start_mono (suc (month_of u)) (month_of t) p))
  | no p ↦ elim (dec_lt (month_of t) (month_of u)) [
    | yes q ↦
        absurd
          (omega (arith, month_of_bounds u, month_start_mono (suc (month_of t)) (month_of u) q))
    | no q ↦ omega arith
  ]
]
