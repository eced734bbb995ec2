-- ===== src/Libc/Gmtime/Tests.antt =====
-- Times run through `gmtime_r`: 2024-02-29 12:34:56 and 1972-12-31 00:00:00.
use eotan.Prelude.{◌+◌, ◌≡◌, refl, arith}
use eotan.Libc.Gmtime.{gmtime_r, month_from, get_days_of_month, year_of}
use eotan.Libc.Gmtime.Calendar.{IsTimeOf, days_before_year}
use eotan.Libc.Gmtime.Laws.{gmtime_r-IsTimeOf, gmtime_r-last_of_leap}

leap_day :
    ((gmtime_r 1709210096).tm_year ≡ 124)
    × ((gmtime_r 1709210096).tm_mon ≡ 1)
    × ((gmtime_r 1709210096).tm_mday ≡ 29)
    × ((gmtime_r 1709210096).tm_hour ≡ 12)
unfolding gmtime_r month_from get_days_of_month year_of
leap_day = (refl, refl, refl, refl)

gmtime_r-IsTimeOf_example : IsTimeOf 1709210096 (gmtime_r 1709210096)
gmtime_r-IsTimeOf_example = gmtime_r-IsTimeOf 1709210096 (omega arith) refl

gmtime_r-last_of_leap_example :
    ((gmtime_r 94608000).tm_yday ≡ 0)
    × ((gmtime_r 94608000).tm_mon ≡ 0)
    × ((gmtime_r 94608000).tm_mday ≡ 1)
    × (days_before_year ((gmtime_r 94608000).tm_year + 1900) ≡ 1095 + days_before_year 1970 + 1)
gmtime_r-last_of_leap_example = gmtime_r-last_of_leap 94608000 (omega arith) refl
