-- ===== src/Schedule/Calendar.antt =====
-- The parts of Go's `time` package that the gate uses, on instants in whole seconds since Go's zero
-- time, 0001-01-01 00:00 UTC (a Monday). The proleptic Gregorian calendar; instants before the zero
-- time are not modelled, and fractions of a second are dropped: the gate compares an instant with
-- whole seconds only, by "not before", which the fraction does not change.
pub mod Years
use libre_mail_bug_report_in.Prelude.{
  ℕ, zero, suc, ◌+◌, ◌-◌, ◌*◌, ◌/◌, ◌%◌, Bool, ◌&&◌, ◌||◌, not, ◌==◌, ltb, if◌then◌else◌,
}

pub data Month : Type 0 where
  january february march april may june july : Month
  august september october november december : Month

abbrev pub hour_seconds : ℕ
hour_seconds = 3600

abbrev pub day_seconds : ℕ
day_seconds = 86400

-- Years are counted from year 1: `years` of them lie before the year `years + 1`.
unfoldable pub days_before_year : ℕ → ℕ
days_before_year year = let years = year - 1 in 365 * years + years / 4 - years / 100 + years / 400

unfoldable pub is_leap : ℕ → Bool
is_leap year = year % 4 == 0 && (not (year % 100 == 0) || year % 400 == 0)

unfoldable pub leap_day : ℕ → ℕ
unfolding is_leap
leap_day year = if is_leap year then 1 else 0

unfoldable pub days_before_month : ℕ → Month → ℕ
days_before_month year january = 0
days_before_month year february = 31
days_before_month year march = 59 + leap_day year
days_before_month year april = 90 + leap_day year
days_before_month year may = 120 + leap_day year
days_before_month year june = 151 + leap_day year
days_before_month year july = 181 + leap_day year
days_before_month year august = 212 + leap_day year
days_before_month year september = 243 + leap_day year
days_before_month year october = 273 + leap_day year
days_before_month year november = 304 + leap_day year
days_before_month year december = 334 + leap_day year

-- the day number of a date
unfoldable pub day_of : ℕ → Month → ℕ → ℕ
unfolding days_before_year days_before_month
day_of year month day = days_before_year year + days_before_month year month + (day - 1)

-- time.Date(year, month, day, hour, 0, 0, 0, time.UTC)
unfoldable pub date : ℕ → Month → ℕ → ℕ → ℕ
date year month day hour = day_of year month day * day_seconds + hour * hour_seconds

abbrev pub sunday : ℕ
sunday = 0

abbrev pub friday : ℕ
friday = 5

-- t.Weekday(), of a day number
unfoldable pub weekday_of_day : ℕ → ℕ
weekday_of_day d = (d + 1) % 7

unfoldable pub weekday : ℕ → ℕ
unfolding weekday_of_day
weekday t = weekday_of_day (t / day_seconds)

unfoldable pub hour : ℕ → ℕ
hour t = t % day_seconds / hour_seconds

unfoldable pub minute : ℕ → ℕ
minute t = t % hour_seconds / 60

-- the years that lie wholly before a day: by cycles of 400, 100, 4 and 1 years
unfoldable pub years_before_day : ℕ → ℕ
years_before_day d =
    let n400 = d / 146097 in
    let r400 = d % 146097 in
    let n100 = r400 / 36524 - r400 / 36524 / 4 in
    let r100 = r400 - 36524 * n100 in
    let n4 = r100 / 1461 in
    let r4 = r100 - 1461 * n4 in
    let n1 = r4 / 365 - r4 / 365 / 4 in 400 * n400 + 100 * n100 + 4 * n4 + n1

-- t.Year(), of a day number
unfoldable pub year_of_day : ℕ → ℕ
unfolding years_before_day
year_of_day d = years_before_day d + 1

unfoldable pub year : ℕ → ℕ
year t = year_of_day (t / day_seconds)
