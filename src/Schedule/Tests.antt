-- ===== src/Schedule/Tests.antt =====
-- Schedules run, and the theorems at concrete inputs.
use mirror_cloud.Common.Int.{pos, negsuc}
use mirror_cloud.Common.{ℕ, ◌≤◌, ◌*◌, ◌≡◌, refl, true, [], ◌∷◌, arith}
use mirror_cloud.Bytes.{codes, same}
use mirror_cloud.Schedule.Calendar.{Time, minute_at, weekday_of, last_day, IsDate}
use mirror_cloud.Schedule.Cron.{IntField, has, CronExpression, empty_day}
use mirror_cloud.Schedule.Next.{minute_nanos, next, first_cron}
use mirror_cloud.Schedule.Next.Least.{IsNext, next-IsNext}
use mirror_cloud.Schedule.Next.Onward.{IsFirst, first_cron-IsFirst}
use mirror_cloud.Schedule.Field.{ok, steps, step_values, range_values, parse_int_field}
use mirror_cloud.Schedule.Field.Ends.{step_values_end}
use mirror_cloud.Schedule.Field.Values.{stepped, range_values_exact}
use mirror_cloud.Schedule.Parse.{rate_words}
use mirror_cloud.Schedule.Parse.Rate.{IsRate, rate_words-IsRate}

weekday_ok : weekday_of 2026 11 26 ≡ 4
unfolding weekday_of
weekday_ok = refl

-- The third Friday at 9:30.
abbrev third_friday : CronExpression
third_friday = record {
  minutes = pos 30 ∷ [];
  hours = pos 9 ∷ [];
  months = pos 1 ∷ pos 12 ∷ [];
  years = pos 2026 ∷ pos 2027 ∷ [];
  day_of_month = record empty_day { any = true };
  day_of_week = record empty_day { weekday = 6; ordinal = 3 };
}

abbrev noon : Time
noon = minute_at 2026 11 26 12 0

next_ok : next third_friday noon ≡ minute_at 2026 12 18 9 30
unfolding next
next_ok = refl

-- An hour range whose end is negative is accepted, and runs to midnight.
negative_hours :
    parse_int_field (codes "20--5") 0 23 [] ≡ ok (pos 20 ∷ pos 21 ∷ pos 22 ∷ pos 23 ∷ [])
unfolding parse_int_field
negative_hours = refl

abbrev quarters : IntField
quarters = pos 0 ∷ pos 15 ∷ pos 30 ∷ pos 45 ∷ []

minutes_ok : parse_int_field (codes "0/15") 0 59 [] ≡ ok quarters
unfolding parse_int_field
minutes_ok = refl

rate_ok : rate_words (codes "5" ∷ codes "minutes" ∷ []) ≡ ok (5 * minute_nanos)
unfolding rate_words same
rate_ok = refl

noon-IsDate : IsDate noon
unfolding last_day
noon-IsDate = record {
  month_low = omega arith;
  month_high = omega arith;
  day_low = omega arith;
  day_high = omega arith;
  hour_high = omega arith;
  minute_high = omega arith;
}

next-IsNext_example : IsNext third_friday noon (next third_friday noon)
next-IsNext_example = next-IsNext third_friday noon noon-IsDate

first_cron-IsFirst_example : IsFirst third_friday noon (first_cron third_friday noon)
first_cron-IsFirst_example = first_cron-IsFirst third_friday noon noon-IsDate (omega arith)

-- A step that overflows gives values outside the range.
overflow :
    parse_int_field (codes "5/9223372036854775807") 0 59 []
    ≡ ok (
        pos 5
        ∷ negsuc 9223372036854775803
        ∷ pos 3
        ∷ negsuc 9223372036854775805
        ∷ pos 1
        ∷ negsuc 9223372036854775807
        ∷ negsuc 0
        ∷ [])
unfolding parse_int_field
overflow = refl

late_hours : range_values 0 23 3 (pos 20, pos 5) ≡ ok (pos 20 ∷ pos 23 ∷ pos 0 ∷ pos 3 ∷ [])
unfolding range_values
late_hours = refl

range_values_exact_example :
    (0 ≤ 20)
    × (5 ≤ 23)
    × ((n : ℕ) → has n (pos 20 ∷ pos 23 ∷ pos 0 ∷ pos 3 ∷ []) ≡ stepped 0 23 3 (pos 20) (pos 5) n)
range_values_exact_example =
    range_values_exact 0 23 3 (pos 20) (pos 5) (pos 20 ∷ pos 23 ∷ pos 0 ∷ pos 3 ∷ []) (omega arith)
      (omega arith) late_hours

step_values_end_example :
    steps 200 9223372036854775807 (pos 59) (pos 5) ≡ step_values 9223372036854775807 5 (pos 59)
step_values_end_example =
    step_values_end 9223372036854775807 5 138 (pos 59) (omega arith) (omega arith) (omega arith)

rate_words-IsRate_example : IsRate (5 * minute_nanos)
rate_words-IsRate_example =
    rate_words-IsRate (codes "5" ∷ codes "minutes" ∷ []) (5 * minute_nanos) rate_ok
