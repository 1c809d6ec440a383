-- ===== src/Schedule/Next/Least.antt =====
-- next answers the first matching minute.
use mirror_cloud.Common.{
  ℕ, zero, suc, ◌+◌, ◌*◌, ◌≤◌, ◌<◌, ◌≡◌, ◌⊎◌, inl, inr, refl, Bool, true, false, not, ◌&&◌, Option,
  none, some, leb, ltb, leb-le, ltb-lt, ltb-ge, or_else, Bool-cases, if◌then◌else◌, arith,
}
use mirror_cloud.Schedule.Calendar.{
  Time, zero_time, truncate, next_year, next_month, next_day, next_hour, next_minute, rank, IsDate,
}
use mirror_cloud.Schedule.Calendar.Order.{
  Steps, SameYear, SameMonth, SameDay, SameHour, SameMinute, Date_bounds, with_nanos-IsDate,
  next_year-Steps, next_month-Steps, next_day-Steps, next_hour-Steps, next_minute-Steps,
}
use mirror_cloud.Schedule.Cron.{CronExpression, has, matches_day}
use mirror_cloud.Schedule.Next.{advance, next_loop, turns, next}

-- All fields of a cron expression match.
unfoldable pub matches : CronExpression → Time → Bool
unfolding has matches_day
matches c t =
    has t.year c.years
    && (has t.month c.months
        && (matches_day c t.year t.month t.day && (has t.hour c.hours && has t.minute c.minutes)))

-- No date from t to before the bound matches.
abbrev pub Passes : CronExpression → Time → ℕ → Type 0
Passes c t bound = (v : Time) → IsDate v → rank t ≤ rank v → rank v < bound → matches c v ≡ false

-- What a step of the search may answer.
abbrev Moves : CronExpression → Time → Option Time → Type 0
Moves c t none = matches c t ≡ true
Moves c t (some u) = IsDate u × (rank t < rank u) × Passes c t (rank u)

Moves-if :
    (c : CronExpression) (t u : Time) (b : Bool) (rest : Option Time)
    → (b ≡ false → IsDate u × (rank t < rank u) × Passes c t (rank u))
    → (b ≡ true → Moves c t rest)
    → Moves c t (if not b then some u else rest)
Moves-if c t u true rest h k = k refl
Moves-if c t u false rest h k = h refl

module _ (c : CronExpression) (t : Time) (d : IsDate t) where
  pass :
      (Same : Time → Time → Type 0) (u : Time)
      → Steps Same t u
      → ((v : Time) → Same t v → matches c v ≡ false)
      → IsDate u × (rank t < rank u) × Passes c t (rank u)
  pass Same u s h = (s.lands, s.later, λ v e p q. h v (s.between v e p q))

  advance-Moves : Moves c t (advance c t)
  unfolding advance
  advance-Moves =
      Moves-if c t (next_year t) (has t.year c.years) _
        (λ h.
          pass SameYear (next_year t) (next_year-Steps t d)
            (λ v y. unfold matches in rw y (ground (arith, h))))
        (λ h1.
          Moves-if c t (next_month t) (has t.month c.months) _
            (λ h.
              pass SameMonth (next_month t) (next_month-Steps t d)
                (λ v s. unfold matches in rw (s.0, s.1) (ground (arith, h))))
            (λ h2.
              Moves-if c t (next_day t) (matches_day c t.year t.month t.day) _
                (λ h.
                  pass SameDay (next_day t) (next_day-Steps t d)
                    (λ v s. unfold matches in rw (s.0, s.1, s.2) (ground (arith, h))))
                (λ h3.
                  Moves-if c t (next_hour t) (has t.hour c.hours) _
                    (λ h.
                      pass SameHour (next_hour t) (next_hour-Steps t d)
                        (λ v s. unfold matches in rw s.3 (ground (arith, h))))
                    (λ h4.
                      Moves-if c t (next_minute t) (has t.minute c.minutes) none
                        (λ h.
                          pass SameMinute (next_minute t) (next_minute-Steps t d)
                            (λ v s. unfold matches in rw s.4 (ground (arith, h))))
                        (λ h5. unfold matches in ground (arith, h1, h2, h3, h4, h5))))))

-- The answer of a search from t: the first date that matches, or none up to the end of 2199.
abbrev pub Least : CronExpression → Time → Option Time → Type 0
Least c t none = (v : Time) → IsDate v → rank t ≤ rank v → v.year ≤ 2199 → matches c v ≡ false
Least c t (some u) =
    IsDate u × (u.year ≤ 2199) × (rank t ≤ rank u) × (matches c u ≡ true) × Passes c t (rank u)

onward :
    (c : CronExpression) (t u : Time)
    → rank t < rank u
    → Passes c t (rank u)
    → (o : Option Time) → Least c u o
    → Least c t o
onward c t u l pass none least = λ v e p y. elim (Bool-cases (ltb (rank v) (rank u))) [
  | inl h ↦ pass v e p (ground arith)
  | inr h ↦ least v e (ground arith) y
]
onward c t u l pass (some w) (e, y, p, m, rest) = (
  e,
  y,
  omega arith,
  m,
  λ v f q r. elim (Bool-cases (ltb (rank v) (rank u))) [
    | inl h ↦ pass v f q (ground arith)
    | inr h ↦ rest v f (ground arith) r
  ],
)

past_end : (c : CronExpression) (t : Time) → leb t.year 2199 ≡ false → IsDate t → Least c t none
past_end c t h d = λ v e p y. absurd (ground (arith, h, p, y, Date_bounds t d, Date_bounds v e))

after_move :
    (c : CronExpression) (fuel : ℕ) (t : Time) (o : Option Time)
    → leb t.year 2199 ≡ true
    → IsDate t
    → 535680 * 2202 < suc fuel + rank t
    → Moves c t o
    → ((u : Time) → IsDate u → 535680 * 2202 < fuel + rank u → Least c u (next_loop c fuel u))
    → Least c t (elim o [ none ↦ some t | some u ↦ next_loop c fuel u ])
after_move c fuel t none y d f m ih =
    (d, leb-le t.year 2199 y, omega arith, m, λ v e p q. absurd (omega (arith, p, q)))
after_move c fuel t (some u) y d f (e, l, pass) ih =
    onward c t u l pass (next_loop c fuel u) (ih u e (omega (arith, f, l)))

by_year :
    (c : CronExpression) (t : Time) (b : Bool) (o : Option Time)
    → (b ≡ true → Least c t o)
    → (b ≡ false → Least c t none)
    → Least c t (elim b [ false ↦ none | true ↦ o ])
by_year c t true o h k = h refl
by_year c t false o h k = k refl

next_loop-Least :
    (c : CronExpression) (fuel : ℕ) (t : Time)
    → IsDate t
    → 535680 * 2202 < fuel + rank t
    → Least c t (next_loop c fuel t)
unfolding next_loop
next_loop-Least c zero t d f = λ v e p y. absurd (omega (arith, f, p, y, Date_bounds v e))
next_loop-Least c (suc fuel) t d f =
    by_year c t (leb t.year 2199) _
      (λ h.
        after_move c fuel t (advance c t) h d f (advance-Moves c t d)
          (λ u e g. next_loop-Least c fuel u e g))
      (λ h. past_end c t h d)

truncate-IsDate : (t : Time) → IsDate t → IsDate (truncate t)
truncate-IsDate t d = with_nanos-IsDate 0 t d

-- What next answers after an instant: the zero time where no later minute up to 2199 matches, or
-- the first matching minute after it.
abbrev pub IsNext : CronExpression → Time → Time → Type 0
IsNext c after u =
    ((u ≡ zero_time)
      × ((v : Time) → IsDate v → rank after < rank v → v.year ≤ 2199 → matches c v ≡ false))
    ⊎ (IsDate u
        × (u.year ≤ 2199)
        × (rank after < rank u)
        × (matches c u ≡ true)
        × ((v : Time) → IsDate v → rank after < rank v → rank v < rank u → matches c v ≡ false))

to_IsNext :
    (c : CronExpression) (after t : Time)
    → rank after < rank t
    → ((v : Time) → IsDate v → rank after < rank v → rank t ≤ rank v)
    → (o : Option Time) → Least c t o
    → IsNext c after (or_else zero_time o)
to_IsNext c after t l next_one none least = inl (refl, λ v e p y. least v e (next_one v e p) y)
to_IsNext c after t l next_one (some u) (e, y, p, m, pass) =
    inr (e, y, omega arith, m, λ v f q r. pass v f (next_one v f q) r)

-- From an instant of the calendar, next answers either the zero time, and then no minute after the
-- instant matches up to the year 2199, or a minute of the calendar after the instant, not later
-- than 2199, that matches, and no minute between them does.
pub next-IsNext : (c : CronExpression) (t : Time) → IsDate t → IsNext c t (next c t)
unfolding next
next-IsNext c t d =
    let start = next_minute (truncate t) in
    let step = next_minute-Steps (truncate t) (truncate-IsDate t d) in
    to_IsNext c t start step.later
      (λ v e p. elim (Bool-cases (ltb (rank v) (rank start))) [
        | inl h ↦
            absurd (
              omega
                (arith, p, step.between v e (omega (arith, p)) (ltb-lt (rank v) (rank start) h)))
        | inr h ↦ ltb-ge (rank v) (rank start) h
      ])
      (next_loop c (turns start) start)
      (next_loop-Least c (turns start) start step.lands (omega arith))
