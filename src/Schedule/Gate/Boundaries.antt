-- ===== src/Schedule/Gate/Boundaries.antt =====
-- The two instants at which Central changes its offset, as the wall clock shows them.
use libre_mail_bug_report_in.Prelude.{
  ℕ, ◌+◌, ◌-◌, ◌*◌, ◌/◌, ◌≤◌, ◌<◌, ◌≡◌, refl, if◌then◌else◌, arith, ltb, not, ◌&&◌,
}
use libre_mail_bug_report_in.Schedule.Calendar.{
  march, november, days_before_year, days_before_month, day_of, date, leap_day, year, day_seconds,
  hour_seconds,
}
use libre_mail_bug_report_in.Schedule.Calendar.Years.{days_before_year_step, year_of_day_unique}
use libre_mail_bug_report_in.Schedule.Gate.{
  nth_sunday_of_month, central_is_daylight, central_clock, spring_forward, fall_back,
}
use libre_mail_bug_report_in.Schedule.Gate.Sundays.{nth_sunday_of_month-weekday}

-- the day of the 2nd Sunday of March, and of the 1st Sunday of November
abbrev pub spring_day : ℕ → ℕ
spring_day y = day_of y march (nth_sunday_of_month y march 2)

abbrev pub autumn_day : ℕ → ℕ
autumn_day y = day_of y november (nth_sunday_of_month y november 1)

leap_day-le : (y : ℕ) → leap_day y ≤ 1
unfolding leap_day
leap_day-le y = ground arith

spring_day_bounds :
    (y : ℕ) → (days_before_year y + 66 ≤ spring_day y) × (spring_day y ≤ days_before_year y + 73)
unfolding day_of days_before_month
spring_day_bounds y =
    omega (arith, nth_sunday_of_month-weekday y march 2 (omega arith), leap_day-le y)

autumn_day_bounds :
    (y : ℕ) → (days_before_year y + 304 ≤ autumn_day y) × (autumn_day y ≤ days_before_year y + 311)
unfolding day_of days_before_month
autumn_day_bounds y =
    omega (arith, nth_sunday_of_month-weekday y november 1 (omega arith), leap_day-le y)

year-day :
    (y d s : ℕ)
    → 1 ≤ y
    → days_before_year y ≤ d
    → d < days_before_year y + 365
    → s < day_seconds
    → year (d * day_seconds + s) ≡ y
unfolding year
year-day y d s h low high short =
    let e : (d * day_seconds + s) / day_seconds ≡ d = omega arith in
    rw e (year_of_day_unique d y low (omega (arith, days_before_year_step y h)))

-- The Central clock at second `s` of day `d` of year `y`.
clock_at :
    (y d s : ℕ)
    → 1 ≤ y
    → days_before_year y ≤ d
    → d < days_before_year y + 365
    → s < day_seconds
    → central_clock (d * day_seconds + s)
      ≡ d * day_seconds
        + s
        - (if not (ltb (d * day_seconds + s) (spring_day y * day_seconds + 8 * hour_seconds))
              && ltb (d * day_seconds + s) (autumn_day y * day_seconds + 7 * hour_seconds)
            then 5 * hour_seconds
            else 6 * hour_seconds)
unfolding central_clock central_is_daylight spring_forward fall_back date
clock_at y d s h low high short = rw (year-day y d s h low high short) refl

-- In every year, one second before the spring-forward instant the Central clock shows 01:59:59 of
-- the 2nd Sunday of March, and at that instant 03:00:00 of the same day.
pub central_clock-spring_forward :
    (y : ℕ)
    → 1 ≤ y
    → (central_clock (spring_forward y - 1) ≡ spring_day y * day_seconds + (2 * hour_seconds - 1))
      × (central_clock (spring_forward y) ≡ spring_day y * day_seconds + 3 * hour_seconds)
unfolding spring_forward date
central_clock-spring_forward y h =
    let d : ℕ = spring_day y in
    let (low, high) = spring_day_bounds y in
    let before : d * day_seconds + 8 * hour_seconds - 1 ≡ d * day_seconds + 28799 = omega arith in
    (
      rw before (
          ground (
            arith,
            clock_at y d 28799 h (omega arith) (omega arith) (omega arith),
            autumn_day_bounds y,
          )),
      ground (
        arith,
        clock_at y d 28800 h (omega arith) (omega arith) (omega arith),
        autumn_day_bounds y,
      ),
    )

-- In every year, one second before the fall-back instant the Central clock shows 01:59:59 of the
-- 1st Sunday of November, and at that instant 01:00:00 of the same day.
pub central_clock-fall_back :
    (y : ℕ)
    → 1 ≤ y
    → (central_clock (fall_back y - 1) ≡ autumn_day y * day_seconds + (2 * hour_seconds - 1))
      × (central_clock (fall_back y) ≡ autumn_day y * day_seconds + hour_seconds)
unfolding fall_back date
central_clock-fall_back y h =
    let d : ℕ = autumn_day y in
    let (low, high) = autumn_day_bounds y in
    let before : d * day_seconds + 7 * hour_seconds - 1 ≡ d * day_seconds + 25199 = omega arith in
    (
      rw before (
          ground (
            arith,
            clock_at y d 25199 h (omega arith) (omega arith) (omega arith),
            spring_day_bounds y,
          )),
      ground (
        arith,
        clock_at y d 25200 h (omega arith) (omega arith) (omega arith),
        spring_day_bounds y,
      ),
    )
