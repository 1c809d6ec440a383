-- ===== src/Schedule/Calendar.antt =====
-- The instants of Go's time package in UTC, by their calendar fields, as
-- internal/services/aws/scheduleexpr/expression.go uses them.
pub mod Order
pub mod Before
use mirror_cloud.Common.{
  ℕ, zero, suc, ◌+◌, ◌-◌, ◌*◌, ◌/◌, ◌%◌, ◌≤◌, ◌==◌, Bool, true, false, ◌&&◌, ◌||◌, not, ltb,
  if◌then◌else◌,
}

-- A time.Time, with the nanoseconds since the minute began.
pub record Time : Type 0 where
  pub year : ℕ
  pub month : ℕ
  pub day : ℕ
  pub hour : ℕ
  pub minute : ℕ
  pub nanos : ℕ

abbrev pub minute_at : ℕ → ℕ → ℕ → ℕ → ℕ → Time
minute_at y m d h n = record { year = y; month = m; day = d; hour = h; minute = n; nanos = 0 }

-- time.Time{}
abbrev pub zero_time : Time
zero_time = minute_at 1 1 1 0 0

abbrev pub is_leap : ℕ → Bool
is_leap y = y % 4 == 0 && (not (y % 100 == 0) || y % 400 == 0)

-- The day of time.Date(y, m+1, 0, …): the last of month m.
unfoldable pub last_day : ℕ → ℕ → ℕ
last_day y m =
    if m == 2
    then (if is_leap y then 29 else 28)
    else if m == 4 || (m == 6 || (m == 9 || m == 11))
    then 30
    else 31

unfoldable pub days_before : ℕ → ℕ → ℕ
unfolding last_day
days_before y zero = 0
days_before y (suc m) = if m == 0 then 0 else days_before y m + last_day y m

-- Weekday of a date, from Sunday, which is 0. The first of January of the year 1 is a Monday.
unfoldable pub weekday_of : ℕ → ℕ → ℕ → ℕ
unfolding days_before
weekday_of y m d =
    let before = y - 1 in
    (365 * before + (before / 4 + before / 400) - before / 100 + days_before y m + d) % 7

-- Truncate(time.Minute)
abbrev pub truncate : Time → Time
truncate t = minute_at t.year t.month t.day t.hour t.minute

-- time.Date(t.Year()+1, 1, 1, 0, 0, …)
abbrev pub next_year : Time → Time
next_year t = minute_at (suc t.year) 1 1 0 0

-- time.Date(t.Year(), t.Month()+1, 1, 0, 0, …)
abbrev pub next_month : Time → Time
next_month t = if ltb t.month 12 then minute_at t.year (suc t.month) 1 0 0 else next_year t

-- time.Date(t.Year(), t.Month(), t.Day()+1, 0, 0, …)
unfoldable pub next_day : Time → Time
unfolding last_day
next_day t =
    if ltb t.day (last_day t.year t.month)
    then minute_at t.year t.month (suc t.day) 0 0
    else next_month t

-- time.Date(t.Year(), t.Month(), t.Day(), t.Hour()+1, 0, …)
unfoldable pub next_hour : Time → Time
unfolding next_day
next_hour t = if ltb t.hour 23 then minute_at t.year t.month t.day (suc t.hour) 0 else next_day t

-- The fields with other nanoseconds.
abbrev pub with_nanos : ℕ → Time → Time
with_nanos n t = record {
  year = t.year;
  month = t.month;
  day = t.day;
  hour = t.hour;
  minute = t.minute;
  nanos = n;
}

-- Add(time.Minute)
unfoldable pub next_minute : Time → Time
unfolding next_hour
next_minute t =
    if ltb t.minute 59
    then with_nanos t.nanos (minute_at t.year t.month t.day t.hour (suc t.minute))
    else with_nanos t.nanos (next_hour t)

-- The last minute of the day before.
unfoldable pub last_minute_before : ℕ → ℕ → ℕ → Time
unfolding last_day
last_minute_before y m d =
    if ltb 1 d
    then minute_at y m (d - 1) 23 59
    else if ltb 1 m
    then minute_at y (m - 1) (last_day y (m - 1)) 23 59
    else minute_at (y - 1) 12 31 23 59

-- Add(-time.Minute)
unfoldable pub minute_before : Time → Time
unfolding last_minute_before
minute_before t =
    if ltb 0 t.minute
    then with_nanos t.nanos (minute_at t.year t.month t.day t.hour (t.minute - 1))
    else if ltb 0 t.hour
    then with_nanos t.nanos (minute_at t.year t.month t.day (t.hour - 1) 59)
    else with_nanos t.nanos (last_minute_before t.year t.month t.day)

-- Add of whole minutes.
unfoldable pub add_minutes : ℕ → Time → Time
unfolding next_minute
add_minutes zero t = t
add_minutes (suc k) t = add_minutes k (next_minute t)

-- The place of a minute among all fields, in order: a month has room for 31 days.
abbrev pub rank : Time → ℕ
rank t = 535680 * t.year + 44640 * t.month + 1440 * t.day + 60 * t.hour + t.minute

-- Before
abbrev pub before : Time → Time → Bool
before t u = ltb (rank t) (rank u) || rank t == rank u && ltb t.nanos u.nanos

-- IsZero
abbrev pub is_zero_time : Time → Bool
is_zero_time t = rank t == rank zero_time && t.nanos == 0

-- The fields are those of a minute that the calendar has.
pub record IsDate (t : Time) : Type 0 where
  pub month_low : 1 ≤ t.month
  pub month_high : t.month ≤ 12
  pub day_low : 1 ≤ t.day
  pub day_high : t.day ≤ last_day t.year t.month
  pub hour_high : t.hour ≤ 23
  pub minute_high : t.minute ≤ 59
