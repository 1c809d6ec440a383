-- ===== src/Statechart/Order.antt =====
-- States with two timers (internal/engine/statechart.go): timers fire in the order in which the
-- state lists them, not in that of their deadlines.
use mirror_cloud.Common.{
  ℕ, zero, suc, ◌≡◌, refl, sym, ap, ◌∙◌, subst, Bool, true, false, List, [], ◌∷◌, some, arith,
  length,
}
use mirror_cloud.Common.Int.{ℤ}
use mirror_cloud.Bytes.{Bytes, is_empty}
use mirror_cloud.GoMap.{lookup}
use mirror_cloud.Statechart.{
  Rec, Timer, State, Statechart, state_of, deadlines_of, fires, is_due, has_state, scan, fire,
  settle_loop, settle,
}
use mirror_cloud.Statechart.Settle.{loop_of_quiet, loop_of_fires}

module _ (chart : Statechart) (r : Rec) (ts : List Timer) (first second : Timer)
    (timers : ts ≡ first ∷ second ∷ []) where
  scan_first :
      (now : ℤ)
      → has_state chart first.target ≡ true
      → is_due now (lookup first.deadline (deadlines_of r)) ≡ true
      → scan chart now r ts ≡ fires first
  unfolding scan
  scan_first now ok due = rw timers (ground arith)

  scan-second :
      (now : ℤ)
      → has_state chart second.target ≡ true
      → is_due now (lookup first.deadline (deadlines_of r)) ≡ false
      → is_due now (lookup second.deadline (deadlines_of r)) ≡ true
      → scan chart now r ts ≡ fires second
  unfolding scan
  scan-second now ok not_yet due = rw timers (ground arith)

-- A state of the chart without timers.
pub record IsResting (chart : Statechart) (s : Bytes) : Type 0 where
  pub named : is_empty s ≡ false
  pub state : State
  pub defined : lookup s chart.states ≡ some state
  pub no_timer : state.timers ≡ []

loop_of_IsResting :
    (chart : Statechart) (now : ℤ) (hops : ℕ) (r : Rec) (changed : Bool)
    → IsResting chart (state_of r chart)
    → (settle_loop hops chart now r changed).rec ≡ r
loop_of_IsResting chart now zero r changed s = unfold settle_loop in refl
loop_of_IsResting chart now (suc hops) r changed s =
    ap (λ x. x.rec)
      (loop_of_quiet chart now hops r changed s.defined (unfold scan in rw s.no_timer))

stays :
    (chart : Statechart) (now : ℤ) (r : Rec)
    → IsResting chart (state_of r chart)
    → (settle (some chart) now r).rec ≡ r
unfolding settle
stays chart now r s = loop_of_IsResting chart now (suc (length chart.states)) r false s

state_of-fire :
    (chart : Statechart) (t : Timer) (r : Rec)
    → is_empty t.target ≡ false
    → state_of (fire t r) chart ≡ t.target
unfolding state_of fire
state_of-fire chart t r h = rw h

has_state_of_IsResting :
    (chart : Statechart) (s : Bytes) → IsResting chart s → has_state chart s ≡ true
unfolding has_state
has_state_of_IsResting chart s h = rw (h.defined, has_state)

module _ (chart : Statechart) (now : ℤ) (r : Rec) {st : State} (t : Timer) where
  settle_of_fires :
      lookup (state_of r chart) chart.states ≡ some st
      → scan chart now r st.timers ≡ fires t
      → IsResting chart t.target
      → (settle (some chart) now r).rec ≡ fire t r
  unfolding settle
  settle_of_fires e f s =
      ap (λ x. x.rec) (loop_of_fires chart now (length chart.states) r false e f)
      ∙ loop_of_IsResting chart now (length chart.states) (fire t r) true
          (subst (IsResting chart) (sym (state_of-fire chart t r s.named)) s)

-- In a state with two timers whose targets have none, if the one listed second comes due first, a
-- record settled then and again when both are due ends in the second's target, and a record settled
-- only when both are due ends in the first's.
pub settle_in_between :
    (chart : Statechart) (earlier later : ℤ) (r : Rec) {st : State} (first second : Timer)
    → lookup (state_of r chart) chart.states ≡ some st
    → st.timers ≡ first ∷ second ∷ []
    → IsResting chart first.target
    → IsResting chart second.target
    → is_due earlier (lookup first.deadline (deadlines_of r)) ≡ false
    → is_due earlier (lookup second.deadline (deadlines_of r)) ≡ true
    → is_due later (lookup first.deadline (deadlines_of r)) ≡ true
    → (state_of (settle (some chart) later r).rec chart ≡ first.target)
      × (state_of (settle (some chart) later (settle (some chart) earlier r).rec).rec chart
          ≡ second.target)
settle_in_between chart earlier later r {st} first second e timers s s' wait due late =
    let ok = has_state_of_IsResting chart first.target s in
    let ok' = has_state_of_IsResting chart second.target s' in
    let alone =
      settle_of_fires chart later r first e
        (scan_first chart r st.timers first second timers later ok late) s in
    let early =
      settle_of_fires chart earlier r second e
        (scan-second chart r st.timers first second timers earlier ok' wait due) s' in
    (
      rw alone (state_of-fire chart first r s.named),
      rw early (
          rw
            (stays chart later (fire second r)
              (subst (IsResting chart) (sym (state_of-fire chart second r s'.named)) s'))
            (state_of-fire chart second r s'.named)),
    )
