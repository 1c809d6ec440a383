-- ===== src/Clock/Tests.antt =====
-- The clock theorems at a clock with two waiters.
use mirror_cloud.Common.{◌≡◌, refl, [], ◌∷◌, none, some, arith}
use mirror_cloud.Common.Int.{pos, ◌+ℤ◌}
use mirror_cloud.Clock.{
  Controllable, new_controllable, buffer, reached, advance, after_time, receive,
}
use mirror_cloud.Clock.Wait.{IsClean}
use mirror_cloud.Clock.Wakeup.{
  Reach, start, next, advances, registers, receives, Reach-IsClean, has_value, no_lost_wakeup,
}

-- Two waiters, for 5 and for 20.
abbrev waiting : Controllable
waiting = (after_time (pos 20) (after_time (pos 5) new_controllable).1).1

waiting-Reach : Reach waiting
waiting-Reach =
    next (next start (registers new_controllable (pos 5)))
      (registers (after_time (pos 5) new_controllable).1 (pos 20))

Reach-IsClean_example : IsClean (receive 0 (advance (pos 10) waiting))
Reach-IsClean_example =
    Reach-IsClean (
      next (next waiting-Reach (advances waiting (pos 10))) (receives (advance (pos 10) waiting) 0))

first_fires : (advance (pos 10) waiting).chans ≡ some (pos 10) ∷ none ∷ []
unfolding advance after_time new_controllable ◌+ℤ◌
first_fires = refl

no_lost_wakeup_example :
    (has_value (
        buffer
          (after_time (pos 7) waiting).0
          (advance (pos 10) (after_time (pos 7) waiting).1).chans)
      ≡ reached (waiting.now +ℤ pos 10) (pos 7))
    × (has_value (
          buffer
            (after_time (pos 7) (advance (pos 10) waiting)).0
            (after_time (pos 7) (advance (pos 10) waiting)).1.chans)
        ≡ reached (waiting.now +ℤ pos 10) (pos 7))
no_lost_wakeup_example = no_lost_wakeup (pos 7) (pos 10) (Reach-IsClean waiting-Reach) (omega arith)
