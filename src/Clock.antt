-- ===== src/Clock.antt =====
-- internal/clock/clock.go: the controllable clock. An instant is an integer of nanoseconds, and a
-- channel, which has room for one value, is its number in the list of all that were made.
pub mod Wait
pub mod Clean
pub mod Wakeup
mod Tests
use mirror_cloud.Common.{
  ℕ, zero, suc, Bool, true, false, not, List, [], ◌∷◌, ◌++◌, Option, none, some, map_option, length,
  ltb, leb, if◌then◌else◌,
}
use mirror_cloud.Common.Int.{ℤ, pos, ltz, ◌+ℤ◌}

pub record Waiter : Type 0 where
  pub at : ℤ
  pub ch : ℕ

-- The buffers of the channels.
abbrev pub Chans : Type 0
Chans = List (Option ℤ)

pub record Controllable : Type 0 where
  pub now : ℤ
  pub wait : List Waiter
  pub chans : Chans

-- NewControllable
unfoldable pub new_controllable : Controllable
new_controllable = record { now = pos 0; wait = []; chans = [] }

-- The buffer of a channel, if there is such a channel.
unfoldable pub buffer : ℕ → Chans → Option (Option ℤ)
buffer ch [] = none
buffer zero (b ∷ bs) = some b
buffer (suc ch) (b ∷ bs) = buffer ch bs

abbrev pub fill : ℤ → Option ℤ → Option ℤ
fill v none = some v
fill v (some old) = some old

-- `select { case ch <- v: default: }`
unfoldable pub send : ℕ → ℤ → Chans → Chans
send ch v [] = []
send zero v (b ∷ bs) = fill v b ∷ bs
send (suc ch) v (b ∷ bs) = b ∷ send ch v bs

-- `!c.now.Before(w.at)`
abbrev pub reached : ℤ → ℤ → Bool
reached now at = not (ltz now at)

-- The loop of `Advance`: the waiters that remain, and the channels.
unfoldable pub advance_loop : ℤ → List Waiter → Chans → List Waiter × Chans
unfolding send
advance_loop now [] cs = ([], cs)
advance_loop now (w ∷ ws) cs =
    let due = reached now w.at in
    let (remain, cs') = advance_loop now ws (if due then send w.ch now cs else cs) in
    (if due then remain else w ∷ remain, cs')

-- Controllable.Advance
unfoldable pub advance : ℤ → Controllable → Controllable
unfolding advance_loop
advance d c =
    let now = c.now +ℤ d in
    let (remain, cs) = advance_loop now c.wait c.chans in
    record { now = now; wait = remain; chans = cs }

-- Controllable.AfterTime: the channel, and the clock with it.
unfoldable pub after_time : ℤ → Controllable → ℕ × Controllable
after_time at c =
    let ch = length c.chans in
    if reached c.now at then (ch, record c { chans = c.chans ++ some c.now ∷ [] }) else (
      ch,
      record c { wait = c.wait ++ record { at = at; ch = ch } ∷ []; chans = c.chans ++ none ∷ [] },
    )

-- Controllable.After, where nothing comes between its two steps.
unfoldable pub after : ℤ → Controllable → ℕ × Controllable
unfolding after_time
after d c = after_time (c.now +ℤ d) c

empty_at : ℕ → Chans → Chans
empty_at ch [] = []
empty_at zero (b ∷ bs) = none ∷ bs
empty_at (suc ch) (b ∷ bs) = b ∷ empty_at ch bs

-- A receive on a channel that holds a value.
unfoldable pub receive : ℕ → Controllable → Controllable
unfolding empty_at
receive ch c = record c { chans = empty_at ch c.chans }
