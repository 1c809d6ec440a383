-- ===== src/Clock/Clean.antt =====
-- Every step of the clock (internal/clock/clock.go) keeps the waiters clean.
use mirror_cloud.Common.{
  ℕ, zero, suc, ◌≡◌, refl, ap, true, false, ◌||◌, List, [], ◌∷◌, ◌++◌, Option, none, some, length,
  ◌==◌, if◌then◌else◌, arith, All, Bool-cases, inl, inr,
}
use mirror_cloud.Common.Int.{ℤ, ltz, ◌+ℤ◌}
use mirror_cloud.Clock.{
  Waiter, Chans, Controllable, buffer, send, reached, advance_loop, advance, after_time, empty_at,
  receive,
}
use mirror_cloud.Clock.Wait.{
  waits_on, OwnChannels, AllEmpty, AllAhead, IsClean, advance_loop_delivers,
}

waits_on-remain :
    (now : ℤ) (ch : ℕ) (ws : List Waiter) (cs : Chans)
    → waits_on ch ws ≡ false
    → waits_on ch (advance_loop now ws cs).0 ≡ false
unfolding advance_loop
waits_on-remain now ch [] cs h = refl
waits_on-remain now ch (w ∷ ws) cs h =
    ground (arith, waits_on-remain now ch ws (send w.ch now cs), waits_on-remain now ch ws cs)

OwnChannels-remain :
    (now : ℤ) (ws : List Waiter) (cs : Chans)
    → OwnChannels ws
    → OwnChannels (advance_loop now ws cs).0
unfolding advance_loop
OwnChannels-remain now [] cs o = tt
OwnChannels-remain now (w ∷ ws) cs o = elim (Bool-cases (reached now w.at)) [
  | inl d ↦ rw d (OwnChannels-remain now ws (send w.ch now cs) o.1)
  | inr d ↦ rw d (waits_on-remain now w.ch ws cs o.0, OwnChannels-remain now ws cs o.1)
]

AllAhead-remain :
    (now : ℤ) (ws : List Waiter) (cs : Chans) → AllAhead now (advance_loop now ws cs).0
unfolding advance_loop
AllAhead-remain now [] cs = tt
AllAhead-remain now (w ∷ ws) cs = elim (Bool-cases (reached now w.at)) [
  | inl d ↦ rw d (AllAhead-remain now ws (send w.ch now cs))
  | inr d ↦ rw d (ground arith, AllAhead-remain now ws cs)
]

empty_of_delivered :
    (now : ℤ) (fin : Chans) (ws : List Waiter) (cs : Chans)
    → All (λ w. buffer w.ch fin ≡ some (if reached now w.at then some now else none)) ws
    → AllEmpty fin (advance_loop now ws cs).0
unfolding advance_loop
empty_of_delivered now fin [] cs e = tt
empty_of_delivered now fin (w ∷ ws) cs e = elim (Bool-cases (reached now w.at)) [
  | inl d ↦ rw d (empty_of_delivered now fin ws (send w.ch now cs) e.1)
  | inr d ↦ rw d (ground arith, empty_of_delivered now fin ws cs e.1)
]

pub advance-IsClean : (d : ℤ) {c : Controllable} → IsClean c → IsClean (advance d c)
unfolding advance
advance-IsClean d {c} h = record {
  own = OwnChannels-remain (c.now +ℤ d) c.wait c.chans h.own;
  empty =
      empty_of_delivered (c.now +ℤ d) (advance_loop (c.now +ℤ d) c.wait c.chans).1 c.wait c.chans
        (advance_loop_delivers (c.now +ℤ d) c.wait c.chans h.own h.empty);
  ahead = AllAhead-remain (c.now +ℤ d) c.wait c.chans;
}

buffer-append :
    (ch : ℕ) (cs ds : Chans) {b : Option ℤ} → buffer ch cs ≡ some b → buffer ch (cs ++ ds) ≡ some b
unfolding buffer
buffer-append ch [] ds h = cc
buffer-append zero (x ∷ cs) ds h = h
buffer-append (suc ch) (x ∷ cs) ds h = buffer-append ch cs ds h

pub buffer-length : (cs ds : Chans) (b : Option ℤ) → buffer (length cs) (cs ++ b ∷ ds) ≡ some b
unfolding buffer
buffer-length [] ds b = refl
buffer-length (x ∷ cs) ds b = buffer-length cs ds b

buffer-none : (cs : Chans) → buffer (length cs) cs ≡ none
unfolding buffer
buffer-none [] = refl
buffer-none (x ∷ cs) = buffer-none cs

pub fresh_channel :
    (cs : Chans) (ws : List Waiter) → AllEmpty cs ws → waits_on (length cs) ws ≡ false
fresh_channel cs [] e = refl
fresh_channel cs (w ∷ ws) e = ground (
  arith,
  buffer-none cs,
  fresh_channel cs ws e.1,
  λ (p : w.ch ≡ length cs). ap (λ k. buffer k cs) p,
)

AllEmpty-append : (cs ds : Chans) (ws : List Waiter) → AllEmpty cs ws → AllEmpty (cs ++ ds) ws
AllEmpty-append cs ds [] e = tt
AllEmpty-append cs ds (w ∷ ws) e = (buffer-append w.ch cs ds e.0, AllEmpty-append cs ds ws e.1)

-- One waiter more at the end of the list.
module _ (w : Waiter) where
  waits_on-append :
      (ch : ℕ) (ws : List Waiter) → waits_on ch (ws ++ w ∷ []) ≡ (waits_on ch ws || w.ch == ch)
  waits_on-append ch [] = ground arith
  waits_on-append ch (u ∷ ws) = ground (arith, waits_on-append ch ws)

  OwnChannels-append :
      (ws : List Waiter) → waits_on w.ch ws ≡ false → OwnChannels ws → OwnChannels (ws ++ w ∷ [])
  OwnChannels-append [] n o = (refl, tt)
  OwnChannels-append (u ∷ ws) n o =
      (ground (arith, waits_on-append u.ch ws), OwnChannels-append ws (ground arith) o.1)

  AllEmpty-snoc :
      (cs : Chans) (ws : List Waiter)
      → buffer w.ch cs ≡ some none
      → AllEmpty cs ws
      → AllEmpty cs (ws ++ w ∷ [])
  AllEmpty-snoc cs [] h e = (h, tt)
  AllEmpty-snoc cs (u ∷ ws) h e = (e.0, AllEmpty-snoc cs ws h e.1)

  AllAhead-snoc :
      (now : ℤ) (ws : List Waiter)
      → ltz now w.at ≡ true
      → AllAhead now ws
      → AllAhead now (ws ++ w ∷ [])
  AllAhead-snoc now [] h e = (h, tt)
  AllAhead-snoc now (u ∷ ws) h e = (e.0, AllAhead-snoc now ws h e.1)

pub after_time-IsClean : (at : ℤ) {c : Controllable} → IsClean c → IsClean (after_time at c).1
unfolding after_time
after_time-IsClean at {c} h = elim (Bool-cases (reached c.now at)) [
  | inl r ↦ rw r (record {
    own = h.own;
    empty = AllEmpty-append c.chans (some c.now ∷ []) c.wait h.empty;
    ahead = h.ahead;
  })
  | inr r ↦
      let w : Waiter = record { at = at; ch = length c.chans } in
      rw r (record {
        own = OwnChannels-append w c.wait (fresh_channel c.chans c.wait h.empty) h.own;
        empty =
            AllEmpty-snoc w (c.chans ++ none ∷ []) c.wait (buffer-length c.chans [] none)
              (AllEmpty-append c.chans (none ∷ []) c.wait h.empty);
        ahead = AllAhead-snoc w c.now c.wait (ground arith) h.ahead;
      })
]

buffer-empty_at :
    (j ch : ℕ) (cs : Chans) → buffer j cs ≡ some none → buffer j (empty_at ch cs) ≡ some none
unfolding buffer empty_at
buffer-empty_at j ch [] h = cc
buffer-empty_at zero zero (b ∷ cs) h = refl
buffer-empty_at zero (suc ch) (b ∷ cs) h = h
buffer-empty_at (suc j) zero (b ∷ cs) h = h
buffer-empty_at (suc j) (suc ch) (b ∷ cs) h = buffer-empty_at j ch cs h

AllEmpty-empty_at :
    (ch : ℕ) (cs : Chans) (ws : List Waiter) → AllEmpty cs ws → AllEmpty (empty_at ch cs) ws
AllEmpty-empty_at ch cs [] e = tt
AllEmpty-empty_at ch cs (w ∷ ws) e =
    (buffer-empty_at w.ch ch cs e.0, AllEmpty-empty_at ch cs ws e.1)

pub receive-IsClean : (ch : ℕ) {c : Controllable} → IsClean c → IsClean (receive ch c)
unfolding receive
receive-IsClean ch {c} h = record {
  own = h.own;
  empty = AllEmpty-empty_at ch c.chans c.wait h.empty;
  ahead = h.ahead;
}
