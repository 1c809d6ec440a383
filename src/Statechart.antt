-- ===== src/Statechart.antt =====
-- internal/engine/statechart.go and the chart types of internal/bir/bir.go: records with a
-- lifecycle, and timers that fire when a record is looked at.
pub mod Settle
pub mod Timers
pub mod Observe
pub mod Order
pub mod Alias
mod Tests
use mirror_cloud.Common.{
  ℕ, zero, suc, Bool, true, false, not, ◌||◌, ◌∷◌, [], List, Option, none, some, or_else, length,
  if◌then◌else◌,
}
use mirror_cloud.Common.Int.{ℤ, ltz}
use mirror_cloud.Bytes.{Bytes, is_empty}
use mirror_cloud.Float.{F64, through_f64}
use mirror_cloud.GoMap.{GoMap, lookup, insert, remove, map_values}

-- A value that an expression can have; lists and maps are kept as their JSON text.
pub data Value : Type 0 where
  null : Value
  text : Bytes → Value
  int64 : ℤ → Value
  float64 : F64 → Value
  duration : ℤ → Value
  json : Bytes → Value

-- A record. The loader keeps the two reserved members out of a bundle's reach, so they stand apart:
-- `state` is the text under "__state", and `deadlines` the map under "__deadlines", of instants in
-- nanoseconds.
pub record Rec : Type 0 where
  pub state : Option Bytes
  pub deadlines : Option (GoMap ℤ)
  pub members : GoMap Value

pub record Timer : Type 0 where
  pub deadline : Bytes
  pub target : Bytes

-- Sources of expressions.
abbrev pub Expr : Type 0
Expr = Bytes

pub record MoveAction : Type 0 where
  pub to : GoMap Expr
  pub set : GoMap Expr
  pub state : Bytes

-- `Action` has exactly one field set, or none, which is an error.
pub data Action : Type 0 where
  set : GoMap Expr → Action
  arm : Bytes → Expr → Action
  move : MoveAction → Action
  empty : Action

pub record Transition : Type 0 where
  pub guard : Expr
  pub target : Bytes
  pub actions : List Action

pub record State : Type 0 where
  pub final : Bool
  pub on : GoMap (List Transition)
  pub timers : List Timer

pub record Statechart : Type 0 where
  pub initial : Bytes
  pub states : GoMap State

pub data EngineError : Type 0 where
  undefined_state : Bytes → EngineError
  unknown_target : Bytes → Bytes → EngineError
  timer_cycle no_statechart not_a_duration empty_action no_key : EngineError
  eval_error : Expr → EngineError
  collection_error : EngineError

-- stateOf
unfoldable pub state_of : Rec → Statechart → Bytes
state_of r chart = elim r.state [
  | none ↦ chart.initial
  | some s ↦ if is_empty s then chart.initial else s
]

-- deadlinesOf: every number goes through a float64 on its way out.
unfoldable pub deadlines_of : Rec → GoMap ℤ
deadlines_of r = map_values through_f64 (or_else [] r.deadlines)

-- setDeadline
unfoldable pub set_deadline : Bytes → ℤ → Rec → Rec
set_deadline name at r = record r { deadlines = some (insert name at (or_else [] r.deadlines)) }

-- What the loop over the timers of a state finds.
pub data Scan : Type 0 where
  quiet : Scan
  astray : Timer → Scan
  fires : Timer → Scan

-- Armed, and the instant reached: `armed && !(now < at)`.
unfoldable pub is_due : ℤ → Option ℤ → Bool
is_due now none = false
is_due now (some at) = not (ltz now at)

unfoldable pub has_state : Statechart → Bytes → Bool
has_state chart s = elim (lookup s chart.states) [ none ↦ false | some _ ↦ true ]

unfoldable pub scan : Statechart → ℤ → Rec → List Timer → Scan
unfolding is_due deadlines_of has_state
scan chart now r [] = quiet
scan chart now r (t ∷ ts) =
    let rest = scan chart now r ts in
    if is_due now (lookup t.deadline (deadlines_of r))
    then if has_state chart t.target then fires t else astray t
    else rest

-- A timer's firing: the state changes and the deadline is taken off.
unfoldable pub fire : Timer → Rec → Rec
fire t r = record r {
  state = some t.target;
  deadlines = elim r.deadlines [ none ↦ none | some d ↦ some (remove t.deadline d) ];
}

pub record Settled : Type 0 where
  pub rec : Rec
  pub changed : Bool
  pub err : Option EngineError

-- The loop of `settle`: `hops` are the rounds left, one more than the chart has states at first.
unfoldable pub settle_loop : ℕ → Statechart → ℤ → Rec → Bool → Settled
unfolding scan fire state_of
settle_loop zero chart now r changed = record { rec = r; changed = changed; err = some timer_cycle }
settle_loop (suc hops) chart now r changed = elim (lookup (state_of r chart) chart.states) [
  | none ↦ record { rec = r; changed = changed; err = some (undefined_state (state_of r chart)) }
  | some st ↦ elim (scan chart now r st.timers) [
    | quiet ↦ record { rec = r; changed = changed; err = none }
    | astray t ↦ record {
      rec = r;
      changed = changed;
      err = some (unknown_target t.deadline t.target);
    }
    | fires t ↦ settle_loop hops chart now (fire t r) true
  ]
]

-- settle
unfoldable pub settle : Option Statechart → ℤ → Rec → Settled
unfolding settle_loop
settle none now r = record { rec = r; changed = false; err = none }
settle (some chart) now r = settle_loop (suc (length chart.states)) chart now r false
