-- ===== src/Schedule/Parse.antt =====
-- Parse, parseCron and parseDayField of internal/services/aws/scheduleexpr/expression.go, in UTC.
pub mod Rate
use mirror_cloud.Common.{
  ℕ, zero, suc, ◌+◌, ◌-◌, ◌*◌, ◌/◌, ◌^◌, ◌==◌, Bool, true, false, ◌&&◌, ◌||◌, not, List, [], ◌∷◌,
  ◌++◌, Option, none, some, length, map, ltb, leb, if◌then◌else◌,
}
use mirror_cloud.Common.Int.{ℤ, pos, negsuc, up, down, diff, ltz}
use mirror_cloud.Bytes.{Bytes, codes, same, has_prefix, trim_prefix, cut, is_empty}
use mirror_cloud.Bytes.Fold.{has_suffix, trim_suffix}
use mirror_cloud.Bytes.Words.{split, fields}
use mirror_cloud.GoMap.{GoMap, lookup}
use mirror_cloud.Schedule.Calendar.{Time, zero_time}
use mirror_cloud.Schedule.Cron.{IntField, DayField, CronExpression, empty_day}
use mirror_cloud.Schedule.Next.{Expression, minute_nanos}
use mirror_cloud.Schedule.Field.{
  ScheduleError, bad_at, bad_rate, bad_rate_value, bad_rate_unit, rate_too_large, bad_expression,
  bad_cron, bad_w_day, bad_hash_day, bad_l_day, Result, ok, failed, ◌>>=◌, check, or_error, atoi,
  field_number, parse_int_field,
}

abbrev pub month_names : GoMap ℕ
month_names =
    (codes "JAN", 1)
    ∷ (codes "FEB", 2)
    ∷ (codes "MAR", 3)
    ∷ (codes "APR", 4)
    ∷ (codes "MAY", 5)
    ∷ (codes "JUN", 6)
    ∷ (codes "JUL", 7)
    ∷ (codes "AUG", 8)
    ∷ (codes "SEP", 9)
    ∷ (codes "OCT", 10)
    ∷ (codes "NOV", 11)
    ∷ (codes "DEC", 12)
    ∷ []

abbrev pub weekday_names : GoMap ℕ
weekday_names =
    (codes "SUN", 1)
    ∷ (codes "MON", 2)
    ∷ (codes "TUE", 3)
    ∷ (codes "WED", 4)
    ∷ (codes "THU", 5)
    ∷ (codes "FRI", 6)
    ∷ (codes "SAT", 7)
    ∷ []

-- A number of a range, with one error for all that is none.
unfoldable pub number_within : GoMap ℕ → Bytes → ℕ → ScheduleError → Result ℕ
unfolding field_number
number_within names raw high e = elim (field_number names raw) [
  | failed _ ↦ failed e
  | ok n ↦ check (ltz n (pos 1) || ltz (pos high) n) e (ok (up n))
]

abbrev last_field : DayField
last_field = record empty_day { last = true }

abbrev any_field : DayField
any_field = record empty_day { any = true }

-- A day of the week with its place in the month.
unfoldable pub ordinal_field : Bytes → Bytes → Result DayField
unfolding number_within
ordinal_field value place = number_within weekday_names value 7 bad_hash_day >>= λ w.
    number_within [] place 5 bad_hash_day >>= λ n. ok record empty_day { weekday = w; ordinal = n }

-- A set of days.
unfoldable pub values_field : Bytes → ℕ → GoMap ℕ → Result DayField
unfolding parse_int_field
values_field raw high names =
    parse_int_field raw 1 high names >>= λ f. ok record empty_day { values = f }

unfoldable pub month_day_field : Bytes → Result DayField
unfolding same has_suffix trim_suffix number_within values_field
month_day_field raw =
    if same raw (codes "L")
    then ok last_field
    else if has_suffix (codes "W") raw
    then (number_within [] (trim_suffix (codes "W") raw) 31 bad_w_day >>= λ n.
        ok record empty_day { nearest_weekday = n })
    else values_field raw 31 []

unfoldable pub week_day_field : Bytes → Result DayField
unfolding cut has_suffix trim_suffix number_within ordinal_field values_field
week_day_field raw =
    let (value, place, found) = cut b'#' raw in
    if found
    then ordinal_field value place
    else if has_suffix (codes "L") raw
    then (number_within weekday_names (trim_suffix (codes "L") raw) 7 bad_l_day >>= λ w.
        ok record empty_day { last_weekday = w })
    else values_field raw 7 weekday_names

-- parseDayField
unfoldable pub parse_day_field : Bytes → Bool → Result DayField
unfolding same month_day_field week_day_field
parse_day_field raw by_week =
    if same raw (codes "?")
    then ok any_field
    else if by_week
    then week_day_field raw
    else month_day_field raw

abbrev upper_byte : ℕ → ℕ
upper_byte c = if leb 97 c && leb c 122 then c - 32 else c

-- The six fields.
unfoldable pub cron_of : List Bytes → Result CronExpression
unfolding same parse_int_field parse_day_field
cron_of (minute ∷ hour ∷ day ∷ month ∷ week_day ∷ year ∷ []) =
    let any_month_day = same day (codes "?") in
    let any_week_day = same week_day (codes "?") in
    check (any_month_day && any_week_day || not any_month_day && not any_week_day) bad_cron (
      parse_int_field minute 0 59 [] >>= λ minutes. parse_int_field hour 0 23 [] >>= λ hours.
      parse_day_field day false >>= λ day_of_month.
      parse_int_field month 1 12 month_names >>= λ months.
      parse_day_field week_day true >>= λ day_of_week.
      parse_int_field year 1970 2199 [] >>= λ years. ok record {
        minutes = minutes;
        hours = hours;
        months = months;
        years = years;
        day_of_month = day_of_month;
        day_of_week = day_of_week;
      })
cron_of _ = failed bad_cron

-- parseCron
unfoldable pub parse_cron : Bytes → Result CronExpression
unfolding cron_of fields
parse_cron raw = cron_of (fields (map upper_byte raw))

abbrev pub units : GoMap ℕ
units =
    (codes "minute", minute_nanos)
    ∷ (codes "minutes", minute_nanos)
    ∷ (codes "hour", 60 * minute_nanos)
    ∷ (codes "hours", 60 * minute_nanos)
    ∷ (codes "day", 1440 * minute_nanos)
    ∷ (codes "days", 1440 * minute_nanos)
    ∷ []

abbrev both : Bool → Bool → Bool
both a b = a && b || not a && not b

-- A rate of n units.
unfoldable pub rate_of : ℕ → Bytes → Result ℕ
unfolding lookup has_suffix
rate_of n word = elim (lookup word units) [
  | none ↦ failed bad_rate_unit
  | some unit ↦
      check (not (both (n == 1) (not (has_suffix (codes "s") word)))) bad_rate_unit
        (check (ltb ((2 ^ 63 - 1) / unit) n) rate_too_large (ok (n * unit)))
]

unfoldable pub rate_words : List Bytes → Result ℕ
unfolding atoi rate_of
rate_words (number ∷ word ∷ []) = elim (atoi number) [
  | none ↦ failed bad_rate_value
  | some n ↦ check (ltz n (pos 1)) bad_rate_value (rate_of (up n) word)
]
rate_words _ = failed bad_rate

-- body
unfoldable pub body_of : Bytes → Bytes → Option Bytes
unfolding has_prefix has_suffix trim_prefix trim_suffix
body_of kind raw =
    let opening = kind ++ codes "(" in
    if has_prefix opening raw && has_suffix (codes ")") raw
    then some (trim_suffix (codes ")") (trim_prefix opening raw))
    else none

abbrev no_expression : Expression
no_expression = record { at = zero_time; every = 0; cron = none }

-- Parse without a time zone, by what time.ParseInLocation makes of an `at` expression.
unfoldable pub parse_schedule : (Bytes → Option Time) → Bytes → Result Expression
unfolding body_of rate_words fields parse_cron
parse_schedule parse_time raw = elim (body_of (codes "at") raw) [
  | some value ↦ (or_error bad_at (parse_time value) >>= λ t. ok record no_expression { at = t })
  | none ↦ elim (body_of (codes "rate") raw) [
    | some value ↦ (rate_words (fields value) >>= λ n. ok record no_expression { every = n })
    | none ↦ elim (body_of (codes "cron") raw) [
      | some value ↦ (parse_cron value >>= λ c. ok record no_expression { cron = some c })
      | none ↦ failed bad_expression
    ]
  ]
]
