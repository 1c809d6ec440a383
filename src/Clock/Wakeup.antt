-- ===== src/Clock/Wakeup.antt =====
-- Wakeups of the controllable clock (internal/clock/clock.go).
use mirror_cloud.Common.{
  ℕ, ◌≡◌, refl, sym, ap, ◌∙◌, Bool, true, false, List, [], ◌∷◌, ◌++◌, Option, none, some, length,
  if◌then◌else◌, arith, All, Bool-cases, inl, inr,
}
use mirror_cloud.Common.Int.{ℤ, pos, ◌+ℤ◌, ◌≤ℤ◌, +ℤ_parts}
use mirror_cloud.Clock.{
  Waiter, Controllable, new_controllable, buffer, reached, advance, after_time, receive,
}
use mirror_cloud.Clock.Wait.{
  IsClean, new_controllable-IsClean, advance_loop_delivers, buffer-advance_loop,
}
use mirror_cloud.Clock.Clean.{
  advance-IsClean, after_time-IsClean, receive-IsClean, buffer-length, fresh_channel,
}

-- What the users of a clock can do with it, in any order.
pub data Step : Controllable → Controllable → Type 0 where
  advances : (c : Controllable) (d : ℤ) → Step c (advance d c)
  registers : (c : Controllable) (at : ℤ) → Step c (after_time at c).1
  receives : (c : Controllable) (ch : ℕ) → Step c (receive ch c)

pub data Reach : Controllable → Type 0 where
  start : Reach new_controllable
  next : {c c' : Controllable} → Reach c → Step c c' → Reach c'

Step-IsClean : {c c' : Controllable} → Step c c' → IsClean c → IsClean c'
Step-IsClean (advances c d) h = advance-IsClean d h
Step-IsClean (registers c at) h = after_time-IsClean at h
Step-IsClean (receives c ch) h = receive-IsClean ch h

-- Every clock reached by advances, registrations and receives in any order is clean: the channels
-- of its waiters exist, are empty and are each the channel of one waiter.
pub Reach-IsClean : {c : Controllable} → Reach c → IsClean c
Reach-IsClean start = new_controllable-IsClean
Reach-IsClean (next r s) = Step-IsClean s (Reach-IsClean r)

-- On a clean clock an advance puts the new instant in the channel of each waiter whose instant is
-- reached, and leaves the channel of each other waiter empty.
pub advance_delivers :
    (d : ℤ) {c : Controllable}
    → IsClean c
    → All
        (λ w.
          buffer w.ch (advance d c).chans
          ≡ some (if reached (c.now +ℤ d) w.at then some (c.now +ℤ d) else none))
        c.wait
unfolding advance
advance_delivers d {c} h = advance_loop_delivers (c.now +ℤ d) c.wait c.chans h.own h.empty

-- Whether a channel holds a value.
pub has_value : Option (Option ℤ) → Bool
has_value (some (some v)) = true
has_value _ = false

reached_mono : (now at d : ℤ) → pos 0 ≤ℤ d → reached now at ≡ true → reached (now +ℤ d) at ≡ true
reached_mono now at d le h = ground (arith, +ℤ_parts now d)

has_value-if : (v : ℤ) (b : Bool) → has_value (some (if b then some v else none)) ≡ b
unfolding has_value
has_value-if v true = refl
has_value-if v false = refl

last_of_All : (P : Waiter → Type 0) (w : Waiter) (ws : List Waiter) → All P (ws ++ w ∷ []) → P w
last_of_All P w [] a = a.0
last_of_All P w (u ∷ ws) a = last_of_All P w ws a.1

-- The registration comes first.
register_first :
    (at d : ℤ) {c : Controllable}
    → IsClean c
    → pos 0 ≤ℤ d
    → has_value (buffer (after_time at c).0 (advance d (after_time at c).1).chans)
      ≡ reached (c.now +ℤ d) at
unfolding after_time advance has_value
register_first at d {c} h le = elim (Bool-cases (reached c.now at)) [
  | inl r ↦
      let now = c.now +ℤ d in
      rw r (
        ap has_value (
          buffer-advance_loop now (length c.chans) c.wait (c.chans ++ some c.now ∷ [])
            (fresh_channel c.chans c.wait h.empty)
          ∙ buffer-length c.chans [] (some c.now))
        ∙ sym (reached_mono c.now at d le r))
  | inr r ↦
      let w : Waiter = record { at = at; ch = length c.chans } in
      let later : IsClean (after_time at c).1 = after_time-IsClean at h in
      let later' : IsClean
          (record { now = c.now; wait = c.wait ++ w ∷ []; chans = c.chans ++ none ∷ [] }) =
        rw r at later in
      rw r (
        ap has_value (last_of_All _ w c.wait (advance_delivers d later'))
        ∙ has_value-if (c.now +ℤ d) (reached (c.now +ℤ d) at))
]

-- The advance comes first.
advance_first :
    (at d : ℤ) (c : Controllable)
    → has_value (buffer (after_time at (advance d c)).0 (after_time at (advance d c)).1.chans)
      ≡ reached (c.now +ℤ d) at
unfolding after_time has_value advance
advance_first at d c = elim (Bool-cases (reached (c.now +ℤ d) at)) [
  | inl r ↦ rw r (rw (buffer-length (advance d c).chans [] (some (c.now +ℤ d))))
  | inr r ↦ rw r (rw (buffer-length (advance d c).chans [] none))
]

-- On a clock that is clean, as every clock reached is, a waiter registered for an instant and an
-- advance by a time that is not negative give the waiter a value exactly if the instant is reached
-- after the advance, whichever of the two comes first.
pub no_lost_wakeup :
    (at d : ℤ) {c : Controllable}
    → IsClean c
    → pos 0 ≤ℤ d
    → (has_value (buffer (after_time at c).0 (advance d (after_time at c).1).chans)
        ≡ reached (c.now +ℤ d) at)
      × (has_value (buffer (after_time at (advance d c)).0 (after_time at (advance d c)).1.chans)
          ≡ reached (c.now +ℤ d) at)
no_lost_wakeup at d {c} h le = (register_first at d h le, advance_first at d c)
