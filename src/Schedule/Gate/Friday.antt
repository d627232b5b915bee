-- ===== src/Schedule/Gate/Friday.antt =====
-- The two cron fires of a Friday.
use libre_mail_bug_report_in.Prelude.{
  ℕ, ◌+◌, ◌*◌, ◌/◌, ◌≤◌, ◌<◌, ◌≡◌, ◌⊎◌, arith, ltb, true, Bool-cases, inl, inr, not, ◌&&◌, ◌↔◌,
}
use libre_mail_bug_report_in.Schedule.Calendar.{
  march, november, day_of, sunday, friday, weekday_of_day, year, weekday, hour, minute, date,
  day_seconds, hour_seconds,
}
use libre_mail_bug_report_in.Schedule.Gate.{
  central_is_daylight, central_offset, is_friday_1700_central, spring_forward, fall_back,
}
use libre_mail_bug_report_in.Schedule.Gate.Sundays.{nth_sunday_of_month-weekday}

-- The instant at which a cron of that UTC hour fires on day `d`.
abbrev pub cron_fire : ℕ → ℕ → ℕ
cron_fire d utc_hour = d * day_seconds + utc_hour * hour_seconds

-- the two boundaries compared with an instant of day `d`
same_evening :
    (d s f : ℕ)
    → (not (ltb (cron_fire d 23) (s * day_seconds + 8 * hour_seconds))
        && ltb (cron_fire d 23) (f * day_seconds + 7 * hour_seconds))
      ≡ (not (ltb (cron_fire d 22) (s * day_seconds + 8 * hour_seconds))
          && ltb (cron_fire d 22) (f * day_seconds + 7 * hour_seconds))
same_evening d s f = ground arith

year_same_evening : (d : ℕ) → year (cron_fire d 23) ≡ year (cron_fire d 22)
unfolding year
year_same_evening d =
    let e : cron_fire d 23 / day_seconds ≡ cron_fire d 22 / day_seconds = omega arith in rw e

daylight_same_evening :
    (d : ℕ) → central_is_daylight (cron_fire d 23) ≡ central_is_daylight (cron_fire d 22)
unfolding central_is_daylight spring_forward fall_back date
daylight_same_evening d = rw (year_same_evening d) (same_evening d _ _)

-- On a Friday, the cron at 22:00 UTC passes the gate exactly in Daylight time, and the one at 23:00
-- UTC exactly when the other one does not: one of the two fires does the work, never both or none.
pub is_friday_1700_central_once :
    (d : ℕ)
    → weekday_of_day d ≡ friday
    → (is_friday_1700_central (cron_fire d 22) ≡ central_is_daylight (cron_fire d 22))
      × (is_friday_1700_central (cron_fire d 23) ≡ not (is_friday_1700_central (cron_fire d 22)))
unfolding is_friday_1700_central central_offset weekday_of_day
is_friday_1700_central_once d h = ground (arith, daylight_same_evening d)

-- `s` is the 2nd Sunday of March of that year and `f` the 1st Sunday of November, as day numbers.
pub record ClockChanges (y s f : ℕ) : Type 0 where
  pub spring_is_sunday : weekday_of_day s ≡ sunday
  pub spring_from : day_of y march 8 ≤ s
  pub spring_to : s ≤ day_of y march 14
  pub autumn_is_sunday : weekday_of_day f ≡ sunday
  pub autumn_from : day_of y november 1 ≤ f
  pub autumn_to : f ≤ day_of y november 7

-- From 08:00 UTC of the one day to 07:00 UTC of the other, which is 02:00 on the clock of each.
abbrev pub IsDaylight : ℕ → ℕ → ℕ → Type 0
IsDaylight s f t =
    (s * day_seconds + 8 * hour_seconds ≤ t) × (t < f * day_seconds + 7 * hour_seconds)

spring_forward-sunday :
    (y s f : ℕ) → ClockChanges y s f → spring_forward y ≡ s * day_seconds + 8 * hour_seconds
unfolding spring_forward date day_of weekday_of_day
spring_forward-sunday y s f h = omega (
  arith,
  nth_sunday_of_month-weekday y march 2 (omega arith),
  h.spring_is_sunday,
  h.spring_from,
  h.spring_to,
)

fall_back-sunday :
    (y s f : ℕ) → ClockChanges y s f → fall_back y ≡ f * day_seconds + 7 * hour_seconds
unfolding fall_back date day_of weekday_of_day
fall_back-sunday y s f h = omega (
  arith,
  nth_sunday_of_month-weekday y november 1 (omega arith),
  h.autumn_is_sunday,
  h.autumn_from,
  h.autumn_to,
)

central_is_daylight_iff :
    (t s f : ℕ) → ClockChanges (year t) s f → (central_is_daylight t ≡ true) ↔ IsDaylight s f t
unfolding central_is_daylight
central_is_daylight_iff t s f h =
    ground (arith, spring_forward-sunday (year t) s f h, fall_back-sunday (year t) s f h)

-- From the seventh hour of the year 1 on, an instant passes the gate exactly if in UTC it is in the
-- first minute of an hour of a Friday, the hour 22 where it lies from 08:00 UTC of the 2nd Sunday of
-- March of its year to before 07:00 UTC of the 1st Sunday of November, and the hour 23 where it does
-- not.
pub is_friday_1700_central_iff :
    (t s f : ℕ)
    → 6 * hour_seconds ≤ t
    → ClockChanges (year t) s f
    → (is_friday_1700_central t ≡ true) ↔ (
        (weekday t ≡ friday)
        × (minute t ≡ 0)
        × (((hour t ≡ 22) × IsDaylight s f t) ⊎ ((hour t ≡ 23) × ¬ (IsDaylight s f t))))
unfolding is_friday_1700_central central_offset
is_friday_1700_central_iff t s f h changes =
    let (to, from) = central_is_daylight_iff t s f changes in
    elim (Bool-cases (central_is_daylight t)) [
      | inl summer ↦ let d = to summer in rw summer (ground arith)
      | inr winter ↦
          let d : ¬ (IsDaylight s f t) = λ d. let e = from d in cc in rw winter (ground arith)
    ]
