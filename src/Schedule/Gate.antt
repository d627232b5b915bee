-- ===== src/Schedule/Gate.antt =====
-- internal/schedule/schedule.go: the timezone gate, computed with no timezone database.
pub mod Sundays
pub mod Boundaries
pub mod Friday
use libre_mail_bug_report_in.Prelude.{
  ℕ, ◌+◌, ◌-◌, ◌*◌, ◌/◌, ◌%◌, Bool, ◌&&◌, not, ◌==◌, ltb, if◌then◌else◌,
}
use libre_mail_bug_report_in.Schedule.Calendar.{
  Month, march, november, hour_seconds, day_of, date, sunday, friday, weekday_of_day, weekday, hour,
  minute, year,
}

-- 1-based day of the month of the nth Sunday
unfoldable pub nth_sunday_of_month : ℕ → Month → ℕ → ℕ
nth_sunday_of_month year month n =
    let first = day_of year month 1 in
    let to_first_sunday = (sunday + 7 - weekday_of_day first) % 7 in
    1 + to_first_sunday + (n - 1) * 7

-- 02:00 Standard time on the 2nd Sunday of March
unfoldable pub spring_forward : ℕ → ℕ
spring_forward year = date year march (nth_sunday_of_month year march 2) 8

-- 02:00 Daylight time on the 1st Sunday of November
unfoldable pub fall_back : ℕ → ℕ
fall_back year = date year november (nth_sunday_of_month year november 1) 7

unfoldable pub central_is_daylight : ℕ → Bool
central_is_daylight u = not (ltb u (spring_forward (year u))) && ltb u (fall_back (year u))

-- how far Central lies behind UTC, in seconds; the source's offset is its negative
unfoldable pub central_offset : ℕ → ℕ
central_offset u = if central_is_daylight u then 5 * hour_seconds else 6 * hour_seconds

unfoldable pub central_clock : ℕ → ℕ
unfolding central_offset
central_clock t = t - central_offset t

unfoldable pub is_friday_1700_central : ℕ → Bool
unfolding central_clock weekday hour minute
is_friday_1700_central t =
    let c = central_clock t in weekday c == friday && (hour c == 17 && minute c == 0)
