-- ===== src/Statechart/Settle.antt =====
-- What `settle` of internal/engine/statechart.go leaves behind.
use mathlib.Core.List.{Memᴰ}
use mirror_cloud.Common.{
  sym, subst, ℕ, zero, suc, ◌≡◌, ◌≢◌, ◌<◌, ◌⊎◌, refl, ◌∙◌, Bool, true, false, List, [], ◌∷◌, none,
  some, arith, Option-cases, inl, inr, length, or_else, if◌then◌else◌, map_option,
}
use mirror_cloud.Common.Int.{ℤ, ltz}
use mirror_cloud.Bytes.{Bytes, same, same_iff}
use mirror_cloud.GoMap.{GoMap, lookup, lookup-remove, lookup-map_values, lookup-nil, length-remove}
use mirror_cloud.Float.{through_f64}
use mirror_cloud.Statechart.{
  Rec, Timer, State, Statechart, timer_cycle, state_of, deadlines_of, Scan, quiet, astray, fires,
  is_due, has_state, scan, fire, settle_loop,
}

pub Scan-cases :
    (s : Scan) → (s ≡ quiet) ⊎ ((t : Timer) × (s ≡ astray t)) ⊎ ((t : Timer) × (s ≡ fires t))
Scan-cases quiet = inl refl
Scan-cases (astray t) = inr (inl (t, refl))
Scan-cases (fires t) = inr (inr (t, refl))

-- The loop is at its end: the scan of the record's state finds no timer.
pub record IsAtEnd (chart : Statechart) (now : ℤ) (r : Rec) : Type 0 where
  pub state : State
  pub defined : lookup (state_of r chart) chart.states ≡ some state
  pub no_timer : scan chart now r state.timers ≡ quiet

module _ (chart : Statechart) (now : ℤ) where
  pub loop-IsAtEnd :
      (hops : ℕ) (r : Rec) (changed : Bool)
      → (settle_loop hops chart now r changed).err ≡ none
      → IsAtEnd chart now (settle_loop hops chart now r changed).rec
  unfolding settle_loop
  loop-IsAtEnd zero r changed h = cc
  loop-IsAtEnd (suc hops) r changed h =
      elim (Option-cases (lookup (state_of r chart) chart.states)) [
        | inl e ↦ cc (rw (e, settle_loop) at h)
        | inr (st, e) ↦ elim (Scan-cases (scan chart now r st.timers)) [
          | inl q ↦ rw (e, q, settle_loop) (record { state = st; defined = e; no_timer = q })
          | inr (inl (t, a)) ↦ cc (rw (e, a, settle_loop) at h)
          | inr (inr (t, f)) ↦
              rw (e, f, settle_loop)
                (loop-IsAtEnd hops (fire t r) true (rw (e, f, settle_loop) at h))
        ]
      ]

-- The armed deadlines, as they are stored.
abbrev pub armed : Rec → GoMap ℤ
armed r = or_else [] r.deadlines

pub lookup-deadlines_of :
    (r : Rec) (d : Bytes) → lookup d (deadlines_of r) ≡ map_option through_f64 (lookup d (armed r))
unfolding deadlines_of
lookup-deadlines_of r d = lookup-map_values through_f64 d (armed r)

pub lookup-fire :
    (t : Timer) (r : Rec) (d : Bytes)
    → lookup d (armed (fire t r)) ≡ (if same t.deadline d then none else lookup d (armed r))
unfolding fire
lookup-fire t r d = elim (Option-cases r.deadlines) [
  | inl e ↦ rw (e, or_else) (ground (arith, lookup-nil {V = ℤ} d))
  | inr (m, e) ↦ rw (e, or_else) (lookup-remove t.deadline d m)
]

-- The record is in a state of the chart, and the deadline of each of that state's timers is not
-- armed or lies ahead, as it is read through a float64.
pub record IsQuiet (chart : Statechart) (now : ℤ) (r : Rec) : Type 0 where
  pub state : State
  pub defined : lookup (state_of r chart) chart.states ≡ some state
  pub ahead :
      (t : Timer) (at : ℤ)
      → Memᴰ t state.timers
      → lookup t.deadline (armed r) ≡ some at
      → ltz now (through_f64 at) ≡ true

module _ (chart : Statechart) (now : ℤ) (r : Rec) where
  scan-cons :
      (t : Timer) (ts : List Timer)
      → scan chart now r (t ∷ ts) ≡ quiet
      → (is_due now (lookup t.deadline (deadlines_of r)) ≡ false) × (scan chart now r ts ≡ quiet)
  unfolding scan
  scan-cons t ts h = ground arith

  not_due :
      (t : Timer) (ts : List Timer)
      → scan chart now r ts ≡ quiet
      → Memᴰ t ts
      → is_due now (lookup t.deadline (deadlines_of r)) ≡ false
  not_due t [] h m = elim m [ ]
  not_due t (u ∷ ts) h (Memᴰ.head e) =
      subst (λ (v : Timer). is_due now (lookup v.deadline (deadlines_of r)) ≡ false) (sym e)
        (scan-cons u ts h).0
  not_due t (u ∷ ts) h (Memᴰ.tail m) = not_due t ts (scan-cons u ts h).1 m

  is_ahead :
      (d : Bytes) (at : ℤ)
      → is_due now (lookup d (deadlines_of r)) ≡ false
      → lookup d (armed r) ≡ some at
      → ltz now (through_f64 at) ≡ true
  unfolding is_due
  is_ahead d at h e = ground (arith, lookup-deadlines_of r d)

  pub IsQuiet-of : IsAtEnd chart now r → IsQuiet chart now r
  IsQuiet-of q = record {
    state = q.state;
    defined = q.defined;
    ahead = λ t at m e. is_ahead t.deadline at (not_due t q.state.timers q.no_timer m) e;
  }

module _ (chart : Statechart) (now : ℤ) (r : Rec) (t : Timer) where
  pub scan-fires :
      (ts : List Timer)
      → scan chart now r ts ≡ fires t
      → (is_due now (lookup t.deadline (deadlines_of r)) ≡ true) × (has_state chart t.target ≡ true)
  unfolding scan
  scan-fires [] h = cc
  scan-fires (u ∷ ts) h = ground (arith, scan-fires ts)

  fire_shrinks :
      (ts : List Timer)
      → scan chart now r ts ≡ fires t
      → length (armed (fire t r)) < length (armed r)
  unfolding fire is_due
  fire_shrinks ts h = elim (Option-cases r.deadlines) [
    | inl e ↦
        ground
          (arith, scan-fires ts h, lookup-deadlines_of r t.deadline, lookup-nil {V = ℤ} t.deadline)
    | inr (m, e) ↦
        ground
          (arith, scan-fires ts h, lookup-deadlines_of r t.deadline, length-remove t.deadline m)
  ]

-- The timers cannot run through all the rounds unless more deadlines are armed than there are
-- rounds.
pub loop_ends :
    (chart : Statechart) (now : ℤ) (hops : ℕ) (r : Rec) (changed : Bool)
    → length (armed r) < hops
    → (settle_loop hops chart now r changed).err ≢ some timer_cycle
unfolding settle_loop
loop_ends chart now zero r changed lt h = absurd (omega arith)
loop_ends chart now (suc hops) r changed lt h =
    elim (Option-cases (lookup (state_of r chart) chart.states)) [
      | inl e ↦ cc (rw (e, settle_loop) at h)
      | inr (st, e) ↦ elim (Scan-cases (scan chart now r st.timers)) [
        | inl q ↦ cc (rw (e, q, settle_loop) at h)
        | inr (inl (t, a)) ↦ cc (rw (e, a, settle_loop) at h)
        | inr (inr (t, f)) ↦
            loop_ends chart now hops (fire t r) true
              (omega (arith, fire_shrinks chart now r t st.timers f)) (rw (e, f, settle_loop) at h)
      ]
    ]

-- A deadline that is not due is kept.
pub loop_keeps :
    (chart : Statechart) (now : ℤ) (d : Bytes) (hops : ℕ) (r : Rec) (changed : Bool)
    → is_due now (lookup d (deadlines_of r)) ≡ false
    → lookup d (armed (settle_loop hops chart now r changed).rec) ≡ lookup d (armed r)
unfolding settle_loop
loop_keeps chart now d zero r changed h = refl
loop_keeps chart now d (suc hops) r changed h =
    elim (Option-cases (lookup (state_of r chart) chart.states)) [
      | inl e ↦ rw (e, settle_loop)
      | inr (st, e) ↦ elim (Scan-cases (scan chart now r st.timers)) [
        | inl q ↦ rw (e, q, settle_loop)
        | inr (inl (t, a)) ↦ rw (e, a, settle_loop)
        | inr (inr (t, f)) ↦
            let due = (scan-fires chart now r t st.timers f).0 in
            let kept : lookup d (armed (fire t r)) ≡ lookup d (armed r) =
              ground (arith, lookup-fire t r d, same_iff t.deadline d) in
            rw (e, f, settle_loop)
              (loop_keeps chart now d hops (fire t r) true
                  (ground (arith, kept, lookup-deadlines_of r d, lookup-deadlines_of (fire t r) d))
                ∙ kept)
      ]
    ]

pub loop-changed :
    (chart : Statechart) (now : ℤ) (hops : ℕ) (r : Rec)
    → (settle_loop hops chart now r true).changed ≡ true
unfolding settle_loop
loop-changed chart now zero r = refl
loop-changed chart now (suc hops) r = elim (Option-cases (lookup (state_of r chart) chart.states)) [
  | inl e ↦ rw (e, settle_loop)
  | inr (st, e) ↦ elim (Scan-cases (scan chart now r st.timers)) [
    | inl q ↦ rw (e, q, settle_loop)
    | inr (inl (t, a)) ↦ rw (e, a, settle_loop)
    | inr (inr (t, f)) ↦ rw (e, f, settle_loop) (loop-changed chart now hops (fire t r))
  ]
]

-- One round, by what the scan finds.
module _ (chart : Statechart) (now : ℤ) (hops : ℕ) (r : Rec) (changed : Bool) {st : State} where
  pub loop_of_quiet :
      lookup (state_of r chart) chart.states ≡ some st
      → scan chart now r st.timers ≡ quiet
      → settle_loop (suc hops) chart now r changed
        ≡ record { rec = r; changed = changed; err = none }
  unfolding settle_loop
  loop_of_quiet e q = rw (e, q, settle_loop)

  pub loop_of_fires :
      {t : Timer}
      → lookup (state_of r chart) chart.states ≡ some st
      → scan chart now r st.timers ≡ fires t
      → settle_loop (suc hops) chart now r changed ≡ settle_loop hops chart now (fire t r) true
  unfolding settle_loop
  loop_of_fires e f = rw (e, f, settle_loop)

  pub loop_of_astray :
      {t : Timer}
      → lookup (state_of r chart) chart.states ≡ some st
      → scan chart now r st.timers ≡ astray t
      → (settle_loop (suc hops) chart now r changed).err ≢ none
  unfolding settle_loop
  loop_of_astray e a h = cc (rw (e, a, settle_loop) at h)
