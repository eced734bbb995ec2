-- ===== src/Libc/Gmtime.antt =====
-- The broken-down time of lib/libc/others/gmtime_r.c, for a time below 2^31; above, the code's
-- `int` is negative, which is not modelled.
pub mod Calendar
pub mod Laws
mod Tests
use eotan.Prelude.{ℕ, suc, ◌+◌, ◌-◌, ◌*◌, ◌/◌, ◌%◌, List, [], ◌∷◌, ◌==◌, leb, not, if◌then◌else◌}

-- `struct tm`
pub record Tm : Type 0 where
  pub tm_sec : ℕ
  pub tm_min : ℕ
  pub tm_hour : ℕ
  pub tm_mday : ℕ
  pub tm_mon : ℕ
  pub tm_year : ℕ
  pub tm_wday : ℕ
  pub tm_yday : ℕ
  pub tm_isdst : ℕ

abbrev pub epoch_days : ℕ
epoch_days = 719162

abbrev pub days_per_year : ℕ
days_per_year = 365

abbrev pub days_per_4years : ℕ
days_per_4years = 1461

abbrev pub days_per_100years : ℕ
days_per_100years = 36524

abbrev pub days_per_400years : ℕ
days_per_400years = 146097

abbrev pub seconds_per_day : ℕ
seconds_per_day = 86400

abbrev pub common_months : List ℕ
common_months = 31 ∷ 28 ∷ 31 ∷ 30 ∷ 31 ∷ 30 ∷ 31 ∷ 31 ∷ 30 ∷ 31 ∷ 30 ∷ 31 ∷ []

abbrev pub leap_months : List ℕ
leap_months = 31 ∷ 29 ∷ 31 ∷ 30 ∷ 31 ∷ 30 ∷ 31 ∷ 31 ∷ 30 ∷ 31 ∷ 30 ∷ 31 ∷ []

unfoldable pub get_days_of_month : ℕ → List ℕ
get_days_of_month year =
    if not (year % 4 == 0)
    then common_months
    else if not (year % 100 == 0)
    then leap_months
    else if not (year % 400 == 0)
    then common_months
    else leap_months

-- The loop over the months: the month, and the day in it from 0.
unfoldable pub month_from : List ℕ → ℕ → ℕ → ℕ × ℕ
month_from [] m d = (m, d)
month_from (x ∷ months) m d =
    let next = month_from months (m + 1) (d - x) in if leb x d then next else (m, d)

-- The year and the day in it from 0, of a number of days from the first day of the year 1.
unfoldable pub year_of : ℕ → ℕ × ℕ
year_of days =
    let d = days % days_per_400years in
    let e = d % days_per_100years in
    let f = e % days_per_4years in
    (
      days / days_per_400years * 400
          + d / days_per_100years * 100
          + e / days_per_4years * 4
          + (f / days_per_year + 1),
      f % days_per_year,
    )

unfoldable pub gmtime_r : ℕ → Tm
gmtime_r t =
    let days = t / seconds_per_day + epoch_days in
    let (y, yday) = year_of days in
    let (mon, mday) = month_from (get_days_of_month y) 0 yday in
    let s = t % seconds_per_day in
    record {
      tm_sec = s % 3600 % 60;
      tm_min = s % 3600 / 60;
      tm_hour = s / 3600;
      tm_mday = mday + 1;
      tm_mon = mon;
      tm_year = y - 1900;
      tm_wday = (days + 1) % 7;
      tm_yday = yday;
      tm_isdst = 0;
    }
