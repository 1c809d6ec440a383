-- ===== src/Schedule/Cron.antt =====
-- The fields of a cron expression and what they match
-- (internal/services/aws/scheduleexpr/expression.go).
use mirror_cloud.Common.{
  ℕ, suc, ◌+◌, ◌-◌, ◌/◌, ◌==◌, Bool, true, false, ◌&&◌, ◌||◌, not, List, [], ◌∷◌, ltb, leb,
  if◌then◌else◌,
}
use mirror_cloud.Common.Int.{ℤ, pos, negsuc}
use mirror_cloud.Schedule.Calendar.{last_day, weekday_of}

-- intField: a set of numbers.
abbrev pub IntField : Type 0
IntField = List ℤ

abbrev pub is_number : ℕ → ℤ → Bool
is_number n (pos m) = m == n
is_number n (negsuc _) = false

-- f[n]
unfoldable pub has : ℕ → IntField → Bool
has n [] = false
has n (m ∷ f) = is_number n m || has n f

-- dayField
pub record DayField : Type 0 where
  pub any : Bool
  pub last : Bool
  pub values : IntField
  pub nearest_weekday : ℕ
  pub last_weekday : ℕ
  pub weekday : ℕ
  pub ordinal : ℕ

-- dayField{}
abbrev pub empty_day : DayField
empty_day = record {
  any = false;
  last = false;
  values = [];
  nearest_weekday = 0;
  last_weekday = 0;
  weekday = 0;
  ordinal = 0;
}

-- cronExpression, in UTC.
pub record CronExpression : Type 0 where
  pub minutes : IntField
  pub hours : IntField
  pub months : IntField
  pub years : IntField
  pub day_of_month : DayField
  pub day_of_week : DayField

-- The weekday nearest to a day of its month, by the day's own weekday.
unfoldable pub nearest : ℕ → ℕ → ℕ → ℕ
nearest day last week_day =
    if week_day == 6
    then (if day == 1 then day + 2 else day - 1)
    else if week_day == 0
    then (if day == last then day - 2 else day + 1)
    else day

-- dayField.matches
unfoldable pub matches_field : DayField → ℕ → ℕ → ℕ → Bool → Bool
unfolding has weekday_of last_day nearest
matches_field f y m d by_week =
    let last = last_day y m in
    let aws_weekday = suc (weekday_of y m d) in
    if f.any
    then true
    else if f.last
    then d == last
    else if not (f.last_weekday == 0)
    then aws_weekday == f.last_weekday && ltb last (d + 7)
    else if not (f.weekday == 0)
    then aws_weekday == f.weekday && (d - 1) / 7 + 1 == f.ordinal
    else if not (f.nearest_weekday == 0)
    then leb f.nearest_weekday last
      && d == nearest f.nearest_weekday last (weekday_of y m f.nearest_weekday)
    else has (if by_week then aws_weekday else d) f.values

-- matchesDay
unfoldable pub matches_day : CronExpression → ℕ → ℕ → ℕ → Bool
unfolding matches_field
matches_day c y m d =
    matches_field c.day_of_month y m d false && matches_field c.day_of_week y m d true
