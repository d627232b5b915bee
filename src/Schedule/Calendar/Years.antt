-- ===== src/Schedule/Calendar/Years.antt =====
-- The year of a day is the one whose days it lies among.
use libre_mail_bug_report_in.Prelude.{ℕ, ◌+◌, ◌≤◌, ◌<◌, ◌≡◌, arith, dec_lt}
use libre_mail_bug_report_in.Schedule.Calendar.{days_before_year, year_of_day, leap_day, is_leap}

-- A day lies in its year: not before the first of January, and before the next one.
pub year_of_day_bounds :
    (d : ℕ) → (days_before_year (year_of_day d) ≤ d) × (d < days_before_year (year_of_day d + 1))
unfolding days_before_year year_of_day
year_of_day_bounds d = omega arith

-- A year has 365 days, and one more if it is a leap year.
pub days_before_year_step :
    (year : ℕ)
    → 1 ≤ year
    → days_before_year (year + 1) ≡ days_before_year year + 365 + leap_day year
unfolding days_before_year leap_day is_leap
days_before_year_step year h = ground arith

days_before_year_mono : (a b : ℕ) → a ≤ b → days_before_year a ≤ days_before_year b
unfolding days_before_year
days_before_year_mono a b h = omega arith

-- The year of a day is the only one that it lies among.
pub year_of_day_unique :
    (d y : ℕ) → days_before_year y ≤ d → d < days_before_year (y + 1) → year_of_day d ≡ y
year_of_day_unique d y h k =
    let (before, behind) = year_of_day_bounds d in
    elim (dec_lt y (year_of_day d)) [
      | yes p ↦ absurd (omega (arith, days_before_year_mono (y + 1) (year_of_day d)))
      | no p ↦ elim (dec_lt (year_of_day d) y) [
        | yes q ↦ absurd (omega (arith, days_before_year_mono (year_of_day d + 1) y))
        | no q ↦ omega arith
      ]
    ]
