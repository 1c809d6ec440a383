-- ===== src/Statechart/Timers.antt =====
-- The theorems on `settle` of internal/engine/statechart.go at one observation.
use mirror_cloud.Common.{
  suc, ◌≡◌, ◌≢◌, ◌≤◌, false, none, some, arith, Option-cases, inl, inr, length,
}
use mirror_cloud.Common.Int.{ℤ}
use mirror_cloud.Bytes.{Bytes}
use mirror_cloud.GoMap.{lookup}
use mirror_cloud.Statechart.{
  Rec, Statechart, timer_cycle, state_of, deadlines_of, is_due, scan, fire, settle_loop, settle,
}
use mirror_cloud.Statechart.Settle.{
  IsQuiet, Scan-cases, armed, IsAtEnd, IsQuiet-of, loop-IsAtEnd, loop_ends, loop_keeps,
  loop-changed,
}

module _ (chart : Statechart) (now : ℤ) (r : Rec) where
  -- A record that settles without an error is in a state of the chart, and the deadline of each
  -- timer of that state is not armed or lies ahead of the instant, as the code reads it through a
  -- float64.
  pub settle-IsQuiet :
      (settle (some chart) now r).err ≡ none → IsQuiet chart now (settle (some chart) now r).rec
  unfolding settle
  settle-IsQuiet h =
      unfold settle in
      IsQuiet-of chart now (settle (some chart) now r).rec
        (loop-IsAtEnd chart now (suc (length chart.states)) r false h)

  -- The bound on the rounds is never met by a record with no more armed deadlines than the chart
  -- has states.
  pub settle_ends :
      length (armed r) ≤ length chart.states → (settle (some chart) now r).err ≢ some timer_cycle
  unfolding settle
  settle_ends h = loop_ends chart now (suc (length chart.states)) r false (omega arith)

  -- A deadline whose instant is not reached stays armed, as it was.
  pub settle_keeps :
      (d : Bytes)
      → is_due now (lookup d (deadlines_of r)) ≡ false
      → lookup d (armed (settle (some chart) now r).rec) ≡ lookup d (armed r)
  unfolding settle
  settle_keeps d h = loop_keeps chart now d (suc (length chart.states)) r false h

  -- A record reported unchanged is the one that was given.
  pub settle_unchanged :
      (settle (some chart) now r).changed ≡ false → (settle (some chart) now r).rec ≡ r
  unfolding settle
  settle_unchanged h = elim (Option-cases (lookup (state_of r chart) chart.states)) [
    | inl e ↦ rw (e, settle_loop)
    | inr (st, e) ↦ elim (Scan-cases (scan chart now r st.timers)) [
      | inl q ↦ rw (e, q, settle_loop)
      | inr (inl (t, a)) ↦ rw (e, a, settle_loop)
      | inr (inr (t, f)) ↦
          cc (loop-changed chart now (length chart.states) (fire t r), rw (e, f, settle_loop) at h)
    ]
  ]

settle_of_IsAtEnd :
    (chart : Statechart) (now : ℤ) (r : Rec)
    → IsAtEnd chart now r
    → settle (some chart) now r ≡ record { rec = r; changed = false; err = none }
unfolding settle
settle_of_IsAtEnd chart now r q = rw (q.defined, q.no_timer, settle_loop)

settle-IsAtEnd :
    (chart : Statechart) (now : ℤ) (r : Rec)
    → (settle (some chart) now r).err ≡ none
    → IsAtEnd chart now (settle (some chart) now r).rec
unfolding settle
settle-IsAtEnd chart now r h = loop-IsAtEnd chart now (suc (length chart.states)) r false h

-- A record that has settled without an error is left as it is, and reported unchanged, by settling
-- it again at the same instant.
pub settle_idem :
    (chart : Statechart) (now : ℤ) (r : Rec)
    → (settle (some chart) now r).err ≡ none
    → settle (some chart) now (settle (some chart) now r).rec
      ≡ record { rec = (settle (some chart) now r).rec; changed = false; err = none }
settle_idem chart now r h =
    settle_of_IsAtEnd chart now (settle (some chart) now r).rec (settle-IsAtEnd chart now r h)
