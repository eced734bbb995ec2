-- ===== src/Libc/Gmtime/Laws.antt =====
-- `gmtime_r` against the calendar.
use eotan.Prelude.{
  ℕ, zero, suc, ◌+◌, ◌-◌, ◌*◌, ◌/◌, ◌%◌, ◌^◌, ◌≤◌, ◌<◌, ◌≡◌, refl, arith, Bool, true, false, List,
  [], ◌∷◌, ◌==◌, ◌||◌, leb, if◌then◌else◌, Bool-cases, inl, inr, ap,
}
use eotan.Libc.Gmtime.{get_days_of_month, month_from, year_of, gmtime_r}
use eotan.Libc.Gmtime.Calendar.{
  is_leap, days_before_year, month_days, days_before_month, days_before_month_next, IsTimeOf,
}

-- The last day of a leap year, as a number of days from the first day of the year 1.
abbrev pub is_last_of_leap : ℕ → Bool
is_last_of_leap days = days % 146097 == 146096 || days % 146097 % 36524 % 1461 == 1460

-- The year after `q` times 400, `r` times 100, `s` times 4 and `u` years.
module _ (q r s u : ℕ) (hr : r < 4) (hs : s < 25) (hu : u < 4) where
  before_year_lem :
      days_before_year (q * 400 + r * 100 + s * 4 + (u + 1))
      ≡ q * 146097 + r * 36524 + s * 1461 + u * 365
  before_year_lem = omega arith

module _ (days : ℕ) (h : is_last_of_leap days ≡ false) where
  year_of-before : days_before_year (year_of days).0 + (year_of days).1 ≡ days
  unfolding year_of
  year_of-before =
      let d = days % 146097 in
      let e = d % 36524 in
      let f = e % 1461 in
      omega (
        arith,
        before_year_lem (days / 146097) (d / 36524) (e / 1461) (f / 365) (ground arith)
            (omega arith) (ground arith),
      )

  year_of-after : 719162 ≤ days → 1970 ≤ (year_of days).0
  unfolding year_of
  year_of-after p = omega (arith, year_of-before)

  year_of-within : (year_of days).1 < 365 + (if is_leap (year_of days).0 then 1 else 0)
  unfolding year_of
  year_of-within = ground arith

months_from : ℕ → ℕ → ℕ → List ℕ
months_from y m zero = []
months_from y m (suc n) = month_days y m ∷ months_from y (m + 1) n

get_days_of_month_lem : (y : ℕ) → get_days_of_month y ≡ months_from y 0 12
unfolding get_days_of_month months_from month_days
get_days_of_month_lem y = ground arith

month_from_lem :
    (y n m d : ℕ)
    → days_before_month y m + d < days_before_month y (m + n)
    → let r = month_from (months_from y m n) m d in
      (days_before_month y r.0 + r.1 ≡ days_before_month y m + d)
      × (r.1 < month_days y r.0)
      × (r.0 < m + n)
unfolding month_from months_from
month_from_lem y zero m d h = ground arith
month_from_lem y (suc n) m d h = elim (Bool-cases (leb (month_days y m) d)) [
  | inl later ↦
      let e : m + suc n ≡ m + 1 + n = omega arith in
      let h' : days_before_month y (m + 1) + (d - month_days y m)
          < days_before_month y (m + 1 + n) =
        ground (arith, days_before_month_next y m, ap (days_before_month y) e) in
      let next = month_from_lem y n (m + 1) (d - month_days y m) h' in
      rw later (ground (arith, next, days_before_month_next y m))
  | inr here ↦ rw here (refl, ground arith, omega arith)
]

days_before_month_12 : (y : ℕ) → days_before_month y 12 ≡ 365 + (if is_leap y then 1 else 0)
unfolding days_before_month month_days
days_before_month_12 y = ground arith

-- The month and the day of a day within a year.
month_of_lem :
    (y d : ℕ)
    → d < 365 + (if is_leap y then 1 else 0)
    → let r = month_from (get_days_of_month y) 0 d in
      (days_before_month y r.0 + r.1 ≡ d) × (r.1 < month_days y r.0) × (r.0 < 12)
unfolding days_before_month
month_of_lem y d h =
    let within : days_before_month y 0 + d < days_before_month y (0 + 12) =
      omega (arith, days_before_month_12 y, h) in
    let (sum, day, month) = month_from_lem y 12 0 d within in
    rw (get_days_of_month_lem y) (omega arith, day, month)

-- For a time below 2^31 on a day that is not the last of a leap year, `gmtime_r` gives the date,
-- the weekday and the time of day of the Gregorian calendar.
pub gmtime_r-IsTimeOf :
    (t : ℕ) → t < 2 ^ 31 → is_last_of_leap (t / 86400 + 719162) ≡ false → IsTimeOf t (gmtime_r t)
unfolding gmtime_r
gmtime_r-IsTimeOf t b h =
    let days = t / 86400 + 719162 in
    let y = (year_of days).0 in
    let yday = (year_of days).1 in
    let before : days_before_year y + yday ≡ days = year_of-before days h in
    let after : 1970 ≤ y = year_of-after days h (omega arith) in
    let here : (gmtime_r t).tm_year + 1900 ≡ y = omega arith in
    let (sum, day, month) = month_of_lem y yday (year_of-within days h) in
    record {
      day = rw here before;
      month = month;
      month_day = rw here (omega arith);
      first = omega arith;
      last = rw here (omega arith);
      weekday = omega arith;
      clock = omega arith;
      minutes = omega arith;
      seconds = omega arith;
    }

month_of_first : (y : ℕ) → month_from (get_days_of_month y) 0 0 ≡ (0, 0)
unfolding month_from get_days_of_month
month_of_first y = ground arith

module _ (days : ℕ) where
  year_of_400 :
      days % 146097 ≡ 146096
      → ((year_of days).1 ≡ 0) × ((year_of days).0 ≡ days / 146097 * 400 + 401)
  unfolding year_of
  year_of_400 h = rw h (refl, omega arith)

  year_of_4 :
      days % 146097 % 36524 % 1461 ≡ 1460
      → ((year_of days).1 ≡ 0)
        × ((year_of days).0
            ≡ days / 146097 * 400
              + days % 146097 / 36524 * 100
              + days % 146097 % 36524 / 1461 * 4
              + 5)
  unfolding year_of
  year_of_4 h = rw h (refl, omega arith)

  year_of_last :
      is_last_of_leap days ≡ true
      → ((year_of days).1 ≡ 0) × (days_before_year (year_of days).0 ≡ days + 1)
  year_of_last h = elim (Bool-cases (days % 146097 == 146096)) [
    | inl e ↦
        let p : days % 146097 ≡ 146096 = ground arith in
        let (d, y) = year_of_400 p in (d, omega (arith, y, p))
    | inr n ↦
        let p : days % 146097 % 36524 % 1461 ≡ 1460 = ground arith in
        let (d, y) = year_of_4 p in
        let r = days % 146097 / 36524 in
        let s = days % 146097 % 36524 / 1461 in
        (
          d,
          omega (
            arith,
            y,
            p,
            before_year_lem (days / 146097) r (s + 1) 0 (ground arith) (omega arith) (omega arith),
          ),
        )
  ]

-- On the last day of a leap year, for a time below 2^31, `gmtime_r` gives the first of January of
-- the year after, a day too late.
pub gmtime_r-last_of_leap :
    (t : ℕ)
    → t < 2 ^ 31
    → is_last_of_leap (t / 86400 + 719162) ≡ true
    → ((gmtime_r t).tm_yday ≡ 0)
      × ((gmtime_r t).tm_mon ≡ 0)
      × ((gmtime_r t).tm_mday ≡ 1)
      × (days_before_year ((gmtime_r t).tm_year + 1900) ≡ t / 86400 + days_before_year 1970 + 1)
unfolding gmtime_r
gmtime_r-last_of_leap t b h =
    let days = t / 86400 + 719162 in
    let y = (year_of days).0 in
    let (first, next) = year_of_last days h in
    let here : y - 1900 + 1900 ≡ y = omega (arith, next) in
    rw (first, month_of_first y) (refl, refl, refl, rw here next)
