-- ===== src/Clock/Wait.antt =====
-- The waiters of the clock (internal/clock/clock.go): each has a channel of its own that is empty,
-- for an instant that is not reached.
use mirror_cloud.Common.{
  ℕ, zero, suc, ◌≡◌, refl, ◌∙◌, Bool, true, false, ◌||◌, List, [], ◌∷◌, none, some, map_option,
  ◌==◌, if◌then◌else◌, arith, All, Bool-cases, inl, inr,
}
use mirror_cloud.Common.Int.{ℤ, ltz}
use mirror_cloud.Clock.{
  Waiter, Chans, Controllable, new_controllable, buffer, fill, send, reached, advance_loop,
}

-- Whether a channel is that of one of the waiters.
abbrev pub waits_on : ℕ → List Waiter → Bool
waits_on ch [] = false
waits_on ch (w ∷ ws) = w.ch == ch || waits_on ch ws

abbrev pub OwnChannels : List Waiter → Type 0
OwnChannels [] = Unit
OwnChannels (w ∷ ws) = (waits_on w.ch ws ≡ false) × OwnChannels ws

abbrev pub AllEmpty : Chans → List Waiter → Type 0
AllEmpty cs ws = All (λ w. buffer w.ch cs ≡ some none) ws

abbrev pub AllAhead : ℤ → List Waiter → Type 0
AllAhead now ws = All (λ w. ltz now w.at ≡ true) ws

pub record IsClean (c : Controllable) : Type 0 where
  pub own : OwnChannels c.wait
  pub empty : AllEmpty c.chans c.wait
  pub ahead : AllAhead c.now c.wait

pub new_controllable-IsClean : IsClean new_controllable
unfolding new_controllable
new_controllable-IsClean = record { own = tt; empty = tt; ahead = tt }

pub buffer-send :
    (j ch : ℕ) (v : ℤ) (cs : Chans)
    → buffer j (send ch v cs) ≡ (if ch == j then map_option (fill v) (buffer j cs) else buffer j cs)
unfolding buffer send
buffer-send j ch v [] = ground arith
buffer-send zero zero v (b ∷ cs) = refl
buffer-send zero (suc ch) v (b ∷ cs) = ground arith
buffer-send (suc j) zero v (b ∷ cs) = ground arith
buffer-send (suc j) (suc ch) v (b ∷ cs) = ground (arith, buffer-send j ch v cs)

-- A channel that no waiter has is left alone.
pub buffer-advance_loop :
    (now : ℤ) (ch : ℕ) (ws : List Waiter) (cs : Chans)
    → waits_on ch ws ≡ false
    → buffer ch (advance_loop now ws cs).1 ≡ buffer ch cs
unfolding advance_loop
buffer-advance_loop now ch [] cs h = refl
buffer-advance_loop now ch (w ∷ ws) cs h = ground (
  arith,
  buffer-advance_loop now ch ws (send w.ch now cs),
  buffer-advance_loop now ch ws cs,
  buffer-send ch w.ch now cs,
)

-- The step for one waiter leaves the others' channels alone.
AllEmpty-send :
    (now : ℤ) (ch : ℕ) (ws : List Waiter) (cs : Chans)
    → waits_on ch ws ≡ false
    → AllEmpty cs ws
    → AllEmpty (send ch now cs) ws
AllEmpty-send now ch [] cs n e = tt
AllEmpty-send now ch (w ∷ ws) cs n e =
    (ground (arith, buffer-send w.ch ch now cs), AllEmpty-send now ch ws cs (ground arith) e.1)

AllEmpty-step :
    (now : ℤ) (w : Waiter) (ws : List Waiter) (cs : Chans)
    → waits_on w.ch ws ≡ false
    → AllEmpty cs ws
    → AllEmpty (if reached now w.at then send w.ch now cs else cs) ws
AllEmpty-step now w ws cs n e = elim (Bool-cases (reached now w.at)) [
  | inl d ↦ rw d (AllEmpty-send now w.ch ws cs n e)
  | inr d ↦ rw d e
]

-- What each waiter's channel holds after the loop.
pub advance_loop_delivers :
    (now : ℤ) (ws : List Waiter) (cs : Chans)
    → OwnChannels ws
    → AllEmpty cs ws
    → All
        (λ w.
          buffer w.ch (advance_loop now ws cs).1
          ≡ some (if reached now w.at then some now else none))
        ws
unfolding advance_loop
advance_loop_delivers now [] cs o e = tt
advance_loop_delivers now (w ∷ ws) cs o e =
    let cs' = if reached now w.at then send w.ch now cs else cs in
    (
      buffer-advance_loop now w.ch ws cs' o.0 ∙ head,
      advance_loop_delivers now ws cs' o.1 (AllEmpty-step now w ws cs o.0 e.1),
    )
  where
    head :
        buffer w.ch (if reached now w.at then send w.ch now cs else cs)
        ≡ some (if reached now w.at then some now else none)
    head = ground (arith, buffer-send w.ch w.ch now cs, e.0)
