-- ===== src/Statechart/Observe.antt =====
-- Looking at a record in between (internal/engine/statechart.go): when it makes no difference to
-- what `settle` finds later, and when it does.
use mirror_cloud.Common.{
  ℕ, zero, suc, ◌≡◌, ◌≢◌, ◌≤◌, refl, ◌∙◌, Bool, true, false, List, [], ◌∷◌, Option, none, some,
  arith, Option-cases, inl, inr, length,
}
use mirror_cloud.Common.Int.{ℤ, ◌≤ℤ◌}
use mirror_cloud.Bytes.{Bytes}
use mirror_cloud.GoMap.{lookup}
use mirror_cloud.Statechart.{
  Rec, Timer, State, Statechart, state_of, deadlines_of, quiet, is_due, scan, fire, settle_loop,
  settle,
}
use mirror_cloud.Statechart.Settle.{Scan-cases, loop_of_quiet, loop_of_fires, loop_of_astray}

-- Every state of the chart has one timer at most.
pub record HasOneTimer (chart : Statechart) : Type 0 where
  pub at_most_one :
      (s : Bytes) (st : State) → lookup s chart.states ≡ some st → length st.timers ≤ 1

is_due_mono :
    (earlier later : ℤ) (at : Option ℤ)
    → earlier ≤ℤ later
    → is_due earlier at ≡ true
    → is_due later at ≡ true
unfolding is_due
is_due_mono earlier later none le h = cc
is_due_mono earlier later (some at) le h = ground arith

module _ (chart : Statechart) (earlier later : ℤ) (le : earlier ≤ℤ later) where
  -- One timer at most: what was found earlier is found later.
  scan_later :
      (r : Rec) (ts : List Timer)
      → length ts ≤ 1
      → scan chart earlier r ts ≢ quiet
      → scan chart later r ts ≡ scan chart earlier r ts
  unfolding scan
  scan_later r [] one h = refl
  scan_later r (t ∷ []) one h =
      ground (arith, is_due_mono earlier later (lookup t.deadline (deadlines_of r)) le)
  scan_later r (t ∷ u ∷ ts) one h = absurd (omega arith)

-- The rounds that are left over do not matter to a record that settles.
loop_more :
    (chart : Statechart) (now : ℤ) (hops : ℕ) (r : Rec) (changed changed' : Bool)
    → (settle_loop hops chart now r changed).err ≡ none
    → ((settle_loop (suc hops) chart now r changed').err ≡ none)
      × ((settle_loop (suc hops) chart now r changed').rec
          ≡ (settle_loop hops chart now r changed).rec)
unfolding settle_loop
loop_more chart now zero r changed changed' h = cc
loop_more chart now (suc hops) r changed changed' h =
    elim (Option-cases (lookup (state_of r chart) chart.states)) [
      | inl e ↦ cc (rw (e, settle_loop) at h)
      | inr (st, e) ↦ elim (Scan-cases (scan chart now r st.timers)) [
        | inl q ↦ rw (e, q, settle_loop) (refl, refl)
        | inr (inl (t, a)) ↦ cc (rw (e, a, settle_loop) at h)
        | inr (inr (t, f)) ↦
            rw (e, f, settle_loop)
              (loop_more chart now hops (fire t r) true true (rw (e, f, settle_loop) at h))
      ]
    ]

-- The flag is only carried along.
loop_flag :
    (chart : Statechart) (now : ℤ) (hops : ℕ) (r : Rec) (changed changed' : Bool)
    → ((settle_loop hops chart now r changed').err ≡ (settle_loop hops chart now r changed).err)
      × ((settle_loop hops chart now r changed').rec ≡ (settle_loop hops chart now r changed).rec)
unfolding settle_loop
loop_flag chart now zero r changed changed' = (refl, refl)
loop_flag chart now (suc hops) r changed changed' =
    elim (Option-cases (lookup (state_of r chart) chart.states)) [
      | inl e ↦ rw (e, settle_loop) (refl, refl)
      | inr (st, e) ↦ elim (Scan-cases (scan chart now r st.timers)) [
        | inl q ↦ rw (e, q, settle_loop) (refl, refl)
        | inr (inl (t, a)) ↦ rw (e, a, settle_loop) (refl, refl)
        | inr (inr (t, f)) ↦ rw (e, f, settle_loop) (refl, refl)
      ]
    ]

module _ (chart : Statechart) (one : HasOneTimer chart) (earlier later : ℤ)
    (le : earlier ≤ℤ later) where
  -- The earlier look settles too, and the later look after it ends where it would have ended alone.
  abbrev Agrees : ℕ → Rec → Bool → Bool → Type 0
  Agrees hops r changed changed' =
      let early = settle_loop hops chart earlier r changed in
      (early.err ≡ none)
      × ((settle_loop hops chart later early.rec changed').err ≡ none)
      × ((settle_loop hops chart later early.rec changed').rec
          ≡ (settle_loop hops chart later r changed).rec)

  loop_between :
      (hops : ℕ) (r : Rec) (changed changed' : Bool)
      → (settle_loop hops chart later r changed).err ≡ none
      → Agrees hops r changed changed'
  loop_between zero r changed changed' h = unfold settle_loop in cc
  loop_between (suc hops) r changed changed' h =
      elim (Option-cases (lookup (state_of r chart) chart.states)) [
        | inl e ↦ unfold settle_loop in cc (rw (e, settle_loop) at h)
        | inr (st, e) ↦
            let late : scan chart earlier r st.timers ≢ quiet
                → scan chart later r st.timers ≡ scan chart earlier r st.timers =
              scan_later chart earlier later le r st.timers
                (one.at_most_one (state_of r chart) st e) in
            elim (Scan-cases (scan chart earlier r st.timers)) [
              | inl q ↦
                  let flag = loop_flag chart later (suc hops) r changed changed' in
                  rw (loop_of_quiet chart earlier hops r changed e q) (refl, flag.0 ∙ h, flag.1)
              | inr (inl (t, a)) ↦
                  absurd (loop_of_astray chart later hops r changed e (late (λ q. cc) ∙ a) h)
              | inr (inr (t, f)) ↦
                  let now_later = loop_of_fires chart later hops r changed e (late (λ q. cc) ∙ f) in
                  let ih = loop_between hops (fire t r) true true (rw now_later at h) in
                  let early = settle_loop hops chart earlier (fire t r) true in
                  let more = loop_more chart later hops early.rec true changed' ih.1 in
                  rw (loop_of_fires chart earlier hops r changed e f, now_later)
                    (ih.0, more.0, more.1 ∙ ih.2)
            ]
      ]

-- In a chart whose states have one timer at most, if a record settles at a later instant, then
-- settling it at an earlier one first gives no error and the later settling ends in the same
-- record.
pub settle-settle :
    (chart : Statechart) (earlier later : ℤ) (r : Rec)
    → HasOneTimer chart
    → earlier ≤ℤ later
    → (settle (some chart) later r).err ≡ none
    → ((settle (some chart) earlier r).err ≡ none)
      × ((settle (some chart) later (settle (some chart) earlier r).rec).err ≡ none)
      × ((settle (some chart) later (settle (some chart) earlier r).rec).rec
          ≡ (settle (some chart) later r).rec)
unfolding settle
settle-settle chart earlier later r one le h =
    loop_between chart one earlier later le (suc (length chart.states)) r false false h
