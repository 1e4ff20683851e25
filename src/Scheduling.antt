-- ===== src/Scheduling.antt =====
-- backend/src/common/utils/scheduling-date.util.ts, and the calendar of JavaScript's `Date` that
-- the scheduling code calls. An instant is a number of milliseconds since 1970-01-01T00:00Z, a
-- "YYYY-MM-DD" string the number of days since that day, and an "HH:mm" string the minutes since
-- midnight: both strings have a fixed width, so comparing them is comparing the numbers.
pub mod Months
use kapis_receptionist.Prelude.{ℕ, ◌+◌, ◌*◌, ◌/◌, ◌%◌, ◌<◌, ◌≡◌, arith}

abbrev pub minute_ms : ℕ
minute_ms = 60000

abbrev pub day_ms : ℕ
day_ms = 86400000

-- `combineDateAndTime`
abbrev pub combine_date_and_time : ℕ → ℕ → ℕ
combine_date_and_time date hhmm = date * day_ms + hhmm * minute_ms

-- `toDateStr`
abbrev pub to_date_str : ℕ → ℕ
to_date_str t = t / day_ms

-- `addMinutes`
abbrev pub add_minutes : ℕ → ℕ → ℕ
add_minutes t minutes = t + minutes * minute_ms

-- `addDays`
abbrev pub add_days : ℕ → ℕ → ℕ
add_days t days = t + days * day_ms

-- `date.getUTCDay()`: 1970-01-01 was a Thursday.
abbrev pub get_utc_day : ℕ → ℕ
get_utc_day t = (t / day_ms + 4) % 7

-- A date and a wall-clock time give back that date.
pub to_date_str-combine_date_and_time :
    (date hhmm : ℕ) → hhmm < 1440 → to_date_str (combine_date_and_time date hhmm) ≡ date
to_date_str-combine_date_and_time date hhmm h = omega arith
