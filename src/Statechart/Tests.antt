-- ===== src/Statechart/Tests.antt =====
-- The statechart theorems at a message that becomes visible again, and at a state with two timers.
use mirror_cloud.Common.{◌≡◌, ◌≢◌, refl, true, false, [], ◌∷◌, List, none, some, arith}
use mirror_cloud.Common.Int.{pos}
use mirror_cloud.Bytes.{Bytes, codes, same}
use mirror_cloud.Bytes.Sort.{has}
use mirror_cloud.Float.{through_f64}
use mirror_cloud.GoMap.{GoMap, lookup, remove, map_values}
use mirror_cloud.Statechart.{
  Rec, Timer, State, Statechart, timer_cycle, state_of, deadlines_of, is_due, settle,
}
use mirror_cloud.Statechart.Settle.{IsQuiet, armed}
use mirror_cloud.Statechart.Timers.{settle-IsQuiet, settle_ends, settle_keeps, settle_unchanged}
use mirror_cloud.Statechart.Observe.{HasOneTimer, settle-settle}
use mirror_cloud.Statechart.Alias.{
  resolve_key_alias, Chain, IsResolved, resolve_key_alias-IsResolved,
}
use mirror_cloud.Statechart.Order.{IsResting, settle_in_between}

abbrev plain_state : List Timer → State
plain_state timers = record { final = false; on = []; timers = timers }

abbrev reappears : Timer
reappears = record { deadline = codes "visible"; target = codes "ready" }

abbrev expires : Timer
expires = record { deadline = codes "expiry"; target = codes "gone" }

abbrev message_chart : Statechart
message_chart = record {
  initial = codes "ready";
  states = (codes "ready", plain_state []) ∷ (codes "hidden", plain_state (reappears ∷ [])) ∷ [];
}

abbrev race_chart : Statechart
race_chart = record {
  initial = codes "hidden";
  states =
      (codes "hidden", plain_state (expires ∷ reappears ∷ []))
      ∷ (codes "ready", plain_state [])
      ∷ (codes "gone", plain_state [])
      ∷ [];
}

-- Hidden until 30, and gone at 50.
abbrev message : Rec
message = record {
  state = some (codes "hidden");
  deadlines = some ((codes "visible", pos 30) ∷ (codes "expiry", pos 50) ∷ []);
  members = [];
}

shows_again : settle (some message_chart) (pos 40) message ≡ record {
  rec = record {
    state = some (codes "ready");
    deadlines = some ((codes "expiry", pos 50) ∷ []);
    members = [];
  };
  changed = true;
  err = none;
}
unfolding settle lookup remove same map_values through_f64
shows_again = refl

settle-IsQuiet_example :
    IsQuiet message_chart (pos 40) (settle (some message_chart) (pos 40) message).rec
unfolding settle lookup remove same map_values through_f64
settle-IsQuiet_example = settle-IsQuiet message_chart (pos 40) message refl

settle_ends_example : (settle (some message_chart) (pos 60) message).err ≢ some timer_cycle
settle_ends_example = settle_ends message_chart (pos 60) message (omega arith)

settle_keeps_example :
    lookup (codes "expiry") (armed (settle (some message_chart) (pos 40) message).rec)
    ≡ lookup (codes "expiry") (armed message)
settle_keeps_example =
    settle_keeps message_chart (pos 40) message (codes "expiry")
      (unfold is_due deadlines_of lookup same map_values through_f64 in refl)

settle_unchanged_example : (settle (some message_chart) (pos 20) message).rec ≡ message
settle_unchanged_example =
    settle_unchanged message_chart (pos 20) message
      (unfold settle lookup remove same map_values through_f64 in refl)

message_chart-HasOneTimer : HasOneTimer message_chart
message_chart-HasOneTimer = record { at_most_one = λ s st h. unfold lookup in ground arith }

settle-settle_example :
    ((settle (some message_chart) (pos 20) message).err ≡ none)
    × ((settle (some message_chart) (pos 40) (settle (some message_chart) (pos 20) message).rec).err
        ≡ none)
    × ((settle (some message_chart) (pos 40) (settle (some message_chart) (pos 20) message).rec).rec
        ≡ (settle (some message_chart) (pos 40) message).rec)
settle-settle_example =
    settle-settle message_chart (pos 20) (pos 40) message message_chart-HasOneTimer (omega arith)
      (unfold settle lookup remove same map_values through_f64 in refl)

gone-IsResting : IsResting race_chart (codes "gone")
gone-IsResting = record {
  named = refl;
  state = plain_state [];
  defined = unfold lookup same in refl;
  no_timer = refl;
}

ready-IsResting : IsResting race_chart (codes "ready")
ready-IsResting = record {
  named = refl;
  state = plain_state [];
  defined = unfold lookup same in refl;
  no_timer = refl;
}

settle_in_between_example :
    (state_of (settle (some race_chart) (pos 60) message).rec race_chart ≡ codes "gone")
    × (state_of
          (settle (some race_chart) (pos 60) (settle (some race_chart) (pos 40) message).rec).rec
          race_chart
        ≡ codes "ready")
unfolding state_of is_due deadlines_of lookup same map_values through_f64
settle_in_between_example =
    settle_in_between race_chart (pos 40) (pos 60) message
      {st = plain_state (expires ∷ reappears ∷ [])} expires reappears refl refl gone-IsResting
      ready-IsResting refl refl refl

abbrev two_aliases : GoMap Bytes
two_aliases = (codes "a", codes "b") ∷ (codes "b", codes "c") ∷ []

resolve_key_alias_run : resolve_key_alias two_aliases (codes "a") ≡ codes "c"
unfolding resolve_key_alias lookup same has
resolve_key_alias_run = refl

resolve_key_alias-IsResolved_example :
    Chain two_aliases (codes "a") (resolve_key_alias two_aliases (codes "a"))
    × IsResolved two_aliases (resolve_key_alias two_aliases (codes "a"))
resolve_key_alias-IsResolved_example =
    resolve_key_alias-IsResolved two_aliases (codes "a") (λ h. absurd cc)
