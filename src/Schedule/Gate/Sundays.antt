-- ===== src/Schedule/Gate/Sundays.antt =====
-- The nth Sunday of a month.
use libre_mail_bug_report_in.Prelude.{ℕ, ◌-◌, ◌*◌, ◌≤◌, ◌<◌, ◌≡◌, arith}
use libre_mail_bug_report_in.Schedule.Calendar.{Month, day_of, sunday, weekday_of_day}
use libre_mail_bug_report_in.Schedule.Gate.{nth_sunday_of_month}

-- For n of 1 or more, the day of the month that is returned is a Sunday, and it lies in the nth
-- seven days of the month, so that n - 1 Sundays of the month come before it.
pub nth_sunday_of_month-weekday :
    (year : ℕ) (month : Month) (n : ℕ)
    → 1 ≤ n
    → (weekday_of_day (day_of year month (nth_sunday_of_month year month n)) ≡ sunday)
      × (7 * (n - 1) < nth_sunday_of_month year month n)
      × (nth_sunday_of_month year month n ≤ 7 * n)
unfolding nth_sunday_of_month day_of weekday_of_day
nth_sunday_of_month-weekday year month n h = omega arith
