-- ===== src/Schedule/Tests.antt =====
-- The calendar, the gate and the weekly run on concrete days.
use libre_mail_bug_report_in.Prelude.{
  ℕ, suc, ◌≡◌, ◌↔◌, ◌⊎◌, refl, true, false, List, [], ◌∷◌, Result, ok, Done, arith,
}
use libre_mail_bug_report_in.Prelude.Text.{Text, codes}
use libre_mail_bug_report_in.Schedule.Calendar.{
  march, july, day_of, date, weekday_of_day, weekday, hour, minute, year, year_of_day, friday,
  leap_day,
}
use libre_mail_bug_report_in.Schedule.Gate.{
  nth_sunday_of_month, is_friday_1700_central, central_is_daylight, spring_forward, fall_back,
}
use libre_mail_bug_report_in.Schedule.Gate.Friday.{
  cron_fire, ClockChanges, IsDaylight, is_friday_1700_central_iff,
}
use libre_mail_bug_report_in.Schedule.Weekly.{OneWorked, run_once_a_friday}

-- a Friday in summer
abbrev independence_eve : ℕ
independence_eve = 739799

is_third_of_july : day_of 2026 july 3 ≡ independence_eve
unfolding day_of leap_day
is_third_of_july = refl

is_a_friday : weekday_of_day independence_eve ≡ friday
unfolding weekday_of_day
is_a_friday = refl

second_sunday_of_march : nth_sunday_of_month 2026 march 2 ≡ 8
unfolding nth_sunday_of_month day_of leap_day weekday_of_day
second_sunday_of_march = refl

-- 17:00:00 Central on that Friday is 22:00 UTC, and 23:00 UTC is not.
gate_in_summer :
    (is_friday_1700_central (date 2026 july 3 22) ≡ true)
    × (is_friday_1700_central (date 2026 july 3 23) ≡ false)
unfolding is_friday_1700_central central_is_daylight spring_forward fall_back date day_of leap_day
    year year_of_day nth_sunday_of_month weekday_of_day
gate_in_summer = (refl, refl)

abbrev first_daylight : ℕ
first_daylight = 739682

abbrev first_standard : ℕ
first_standard = 739920

daylight_of_2026 : ClockChanges 2026 first_daylight first_standard
unfolding day_of leap_day weekday_of_day
daylight_of_2026 = record {
  spring_is_sunday = refl;
  spring_from = omega arith;
  spring_to = omega arith;
  autumn_is_sunday = refl;
  autumn_from = omega arith;
  autumn_to = omega arith;
}

year_of_independence_eve : year (cron_fire independence_eve 22) ≡ 2026
unfolding year year_of_day
year_of_independence_eve = refl

is_friday_1700_central_iff_example :
    (is_friday_1700_central (cron_fire independence_eve 22) ≡ true) ↔ (
      (weekday (cron_fire independence_eve 22) ≡ friday)
      × (minute (cron_fire independence_eve 22) ≡ 0)
      × (((hour (cron_fire independence_eve 22) ≡ 22)
            × IsDaylight first_daylight first_standard (cron_fire independence_eve 22))
          ⊎ ((hour (cron_fire independence_eve 22) ≡ 23)
              × ¬ (IsDaylight first_daylight first_standard (cron_fire independence_eve 22)))))
is_friday_1700_central_iff_example =
    is_friday_1700_central_iff (cron_fire independence_eve 22) first_daylight first_standard
      (omega arith) (rw year_of_independence_eve daylight_of_2026)

-- Seams that count their calls: the lister and the publisher each add one.
abbrev counting_list : ℕ → Result ℕ (List Text) × ℕ
counting_list n = (ok (codes "a" ∷ []), suc n)

abbrev counting_publish : List Text → ℕ → Result ℕ Done × ℕ
counting_publish ids n = (ok tt, suc n)

run_once_a_friday_example :
    OneWorked counting_list counting_publish
      (cron_fire independence_eve 22)
      (cron_fire independence_eve 23)
      0
run_once_a_friday_example =
    run_once_a_friday counting_list counting_publish independence_eve 0 is_a_friday
