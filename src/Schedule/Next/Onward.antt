-- ===== src/Schedule/Next/Onward.antt =====
-- First of a cron expression: the first matching minute from an instant on.
use mirror_cloud.Common.{
  ◌≤◌, ◌<◌, ◌≡◌, ◌⊎◌, inl, inr, refl, sym, subst, Bool, true, false, not, ◌&&◌, if◌then◌else◌,
  arith,
}
use mirror_cloud.Schedule.Calendar.{
  Time, zero_time, minute_before, rank, before, is_zero_time, IsDate,
}
use mirror_cloud.Schedule.Calendar.Before.{Precedes, minute_before-Precedes}
use mirror_cloud.Schedule.Cron.{CronExpression}
use mirror_cloud.Schedule.Next.{next, chosen, first_cron}
use mirror_cloud.Schedule.Next.Least.{matches, IsNext, next-IsNext}

-- A whole minute that is not before an instant.
abbrev pub From : Time → Time → Type 0
From now v = IsDate v × (v.nanos ≡ 0) × (before v now ≡ false)

-- What First answers: the zero time where no minute from the instant on matches up to 2199, or the
-- first that does.
abbrev pub IsFirst : CronExpression → Time → Time → Type 0
IsFirst c now u =
    ((u ≡ zero_time) × ((v : Time) → From now v → v.year ≤ 2199 → matches c v ≡ false))
    ⊎ (IsDate u
        × (u.year ≤ 2199)
        × (before u now ≡ false)
        × (matches c u ≡ true)
        × ((v : Time) → From now v → rank v < rank u → matches c v ≡ false))

from_rank : (now v : Time) → before v now ≡ false → rank now ≤ rank v
from_rank now v h = ground arith

not_zero : (u : Time) → rank zero_time < rank u → is_zero_time u ≡ false
not_zero u h = ground arith

module _ (c : CronExpression) (now : Time) (d : IsDate now) (y : 2 ≤ now.year) where
  mb : Precedes (minute_before now) now
  mb = minute_before-Precedes now d (omega arith)

  -- Where the minute found is before the instant, it is the instant's own minute.
  again : (u w : Time) → rank now ≤ rank u → before u now ≡ true → IsNext c u w → IsFirst c now w
  again u w r b (inl (z, none_match)) =
      inl (z, λ v (e, whole, f) bound. none_match v e (ground arith) bound)
  again u w r b (inr (e, bound, later, m, pass)) =
      inr (e, bound, ground arith, m, λ v (f, whole, g) q. pass v f (ground arith) q)

  choose_by :
      (u w : Time) (z b : Bool)
      → z ≡ false
      → (b ≡ true → IsFirst c now w)
      → (b ≡ false → IsFirst c now u)
      → IsFirst c now (if not z && b then w else u)
  choose_by u w true b z h k = cc
  choose_by u w false true z h k = h refl
  choose_by u w false false z h k = k refl

  choose : (u : Time) → IsNext c (minute_before now) u → IsFirst c now (chosen c now u)
  unfolding chosen
  choose u (inl (z, none_match)) =
      subst (λ (w : Time). IsFirst c now (chosen c now w)) (sym z)
        (inl (
          refl,
          λ v (e, whole, f) bound.
              none_match v e (omega (arith, mb.earlier, from_rank now v f)) bound,
        ))
  choose u (inr (e, bound, later, m, pass)) =
      let r : rank now ≤ rank u = mb.none_between u e later in
      choose_by u (next c u) (is_zero_time u) (before u now) (not_zero u (omega (arith, y, r)))
        (λ b. again u (next c u) r b (next-IsNext c u e))
        (λ b. inr (
          e,
          bound,
          b,
          m,
          λ v (f, whole, g) q. pass v f (omega (arith, mb.earlier, from_rank now v g)) q,
        ))

  -- First of a cron expression, from an instant of the calendar of the year 2 or later, answers
  -- either the zero time, and then no whole minute that is not before the instant matches up to the
  -- year 2199, or such a minute that matches, and none before it does.
  pub first_cron-IsFirst : IsFirst c now (first_cron c now)
  unfolding first_cron
  first_cron-IsFirst =
      choose (next c (minute_before now)) (next-IsNext c (minute_before now) mb.begins)
