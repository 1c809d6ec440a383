-- ===== src/Schedule/Next.antt =====
-- next, First and After of internal/services/aws/scheduleexpr/expression.go.
pub mod Least
pub mod Onward
use mirror_cloud.Common.{
  ℕ, zero, suc, ◌+◌, ◌-◌, ◌*◌, ◌/◌, ◌≤◌, ◌==◌, Bool, true, false, ◌&&◌, not, Option, none, some,
  ltb, leb, or_else, if◌then◌else◌,
}
use mirror_cloud.Schedule.Calendar.{
  Time, zero_time, truncate, next_year, next_month, next_day, next_hour, next_minute, minute_before,
  add_minutes, rank, before, is_zero_time,
}
use mirror_cloud.Schedule.Cron.{CronExpression, has, matches_day}

-- The instant after one whose first field that does not match is passed over; none, if all match.
unfoldable pub advance : CronExpression → Time → Option Time
unfolding has matches_day next_day next_hour next_minute
advance c t =
    if not (has t.year c.years)
    then some (next_year t)
    else if not (has t.month c.months)
    then some (next_month t)
    else if not (matches_day c t.year t.month t.day)
    then some (next_day t)
    else if not (has t.hour c.hours)
    then some (next_hour t)
    else if not (has t.minute c.minutes)
    then some (next_minute t)
    else none

-- The loop of next, to the end of the year 2199.
unfoldable pub next_loop : CronExpression → ℕ → Time → Option Time
unfolding advance
next_loop c zero t = none
next_loop c (suc fuel) t = elim (leb t.year 2199) [
  | false ↦ none
  | true ↦ elim (advance c t) [ none ↦ some t | some u ↦ next_loop c fuel u ]
]

-- The ranks up to the year 2200 are turns enough.
abbrev pub turns : Time → ℕ
turns t = suc (535680 * 2202 - rank t)

-- cronExpression.next
unfoldable pub next : CronExpression → Time → Time
unfolding next_loop next_minute
next c after = let t = next_minute (truncate after) in or_else zero_time (next_loop c (turns t) t)

-- Expression
pub record Expression : Type 0 where
  pub at : Time
  pub every : ℕ
  pub cron : Option CronExpression

abbrev pub minute_nanos : ℕ
minute_nanos = 60000000000

-- Add(e.every), which is whole minutes.
unfoldable pub add_every : ℕ → Time → Time
unfolding add_minutes
add_every every t = add_minutes (every / minute_nanos) t

-- The minute found, or the next one where that is before the instant wanted.
unfoldable pub chosen : CronExpression → Time → Time → Time
unfolding next
chosen c now found = if not (is_zero_time found) && before found now then next c found else found

-- First of a cron expression, at the instant from which it is wanted.
unfoldable pub first_cron : CronExpression → Time → Time
unfolding next minute_before chosen
first_cron c now = chosen c now (next c (minute_before now))

-- First
unfoldable pub first : Expression → Time → Time → Time
unfolding first_cron
first e now start =
    let from = if before now start then start else now in
    if not (is_zero_time e.at)
    then (if before e.at now then zero_time else e.at)
    else if ltb 0 e.every
    then from
    else elim e.cron [ some c ↦ first_cron c from | none ↦ zero_time ]

-- After
unfoldable pub after : Expression → Time → Time
unfolding add_every next
after e t =
    if ltb 0 e.every
    then add_every e.every t
    else elim e.cron [ some c ↦ next c t | none ↦ zero_time ]

-- OneTime
unfoldable pub one_time : Expression → Bool
one_time e = not (is_zero_time e.at)
