-- ===== src/Libc/Gmtime/Calendar.antt =====
-- The Gregorian calendar, independently of lib/libc/others/gmtime_r.c: the days before a year,
-- and before a month of a year, and what it means for a broken-down time to stand for a time.
use eotan.Prelude.{
  ℕ, zero, suc, ◌+◌, ◌-◌, ◌*◌, ◌/◌, ◌%◌, ◌≤◌, ◌<◌, ◌≡◌, ap, arith, Bool, ◌==◌, ◌&&◌, ◌||◌, not,
  if◌then◌else◌,
}
use eotan.Libc.Gmtime.{Tm}

abbrev pub is_leap : ℕ → Bool
is_leap y = y % 4 == 0 && (not (y % 100 == 0) || y % 400 == 0)

abbrev pub days_before_year : ℕ → ℕ
days_before_year y = (y - 1) * 365 + (y - 1) / 4 - (y - 1) / 100 + (y - 1) / 400

-- The days of a month, from 0 for January.
unfoldable pub month_days : ℕ → ℕ → ℕ
month_days y m =
    if m == 1
    then (if is_leap y then 29 else 28)
    else if m == 3 || (m == 5 || (m == 8 || m == 10))
    then 30
    else 31

unfoldable pub days_before_month : ℕ → ℕ → ℕ
days_before_month y zero = 0
days_before_month y (suc m) = days_before_month y m + month_days y m

pub days_before_month_next :
    (y m : ℕ) → days_before_month y (m + 1) ≡ days_before_month y m + month_days y m
unfolding days_before_month
days_before_month_next y m = let e : m + 1 ≡ suc m = omega arith in ap (days_before_month y) e

-- The broken-down time `r` is the time `t`, in seconds from the first of January 1970.
pub record IsTimeOf (t : ℕ) (r : Tm) : Type 0 where
  pub day : days_before_year (r.tm_year + 1900) + r.tm_yday ≡ t / 86400 + days_before_year 1970
  pub month : r.tm_mon < 12
  pub month_day : days_before_month (r.tm_year + 1900) r.tm_mon + r.tm_mday ≡ r.tm_yday + 1
  pub first : 1 ≤ r.tm_mday
  pub last : r.tm_mday ≤ month_days (r.tm_year + 1900) r.tm_mon
  -- 1970 began on a Thursday
  pub weekday : r.tm_wday ≡ (t / 86400 + 4) % 7
  pub clock : (r.tm_hour * 60 + r.tm_min) * 60 + r.tm_sec ≡ t % 86400
  pub minutes : r.tm_min < 60
  pub seconds : r.tm_sec < 60
