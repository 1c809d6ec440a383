-- ===== src/Dynamo/Eval/Laws.antt =====
-- How the comparisons of eval stand to one another.
use mirror_cloud.Common.{zero, suc, Option, some, none, ◌≡◌, refl, true, false, arith}
use mirror_cloud.Common.Int.{ℤ, pos, negsuc, up, down}
use mirror_cloud.Bytes.{Bytes, codes, same}
use mirror_cloud.Bytes.Order.{less_asymm}
use mirror_cloud.GoMap.{lookup}
use mirror_cloud.Float.{F64, finite, inf, nan}
use mirror_cloud.Float.Compare.{less_f64}
use mirror_cloud.Dynamo.Value.{
  Value, Strconv, Item, to_float, compare_values, compare_floats, compare_texts, compare_by,
  as_text,
}
use mirror_cloud.Dynamo.Parse.{Node, Nodes, call, no_nodes, node}
use mirror_cloud.Dynamo.Eval.{Outcome, value_of, eval, apply_op, operations, in_values, and_outcome}

less_f64-asym : (a b : F64) → less_f64 a b ≡ true → less_f64 b a ≡ false
unfolding less_f64
less_f64-asym (finite m d) (finite n e) h = ground arith
less_f64-asym (finite m d) (inf b) h = ground arith
less_f64-asym (finite m d) nan h = refl
less_f64-asym (inf a) (finite n e) h = ground arith
less_f64-asym (inf a) (inf b) h = ground arith
less_f64-asym (inf a) nan h = refl
less_f64-asym nan (finite _ _) h = cc
less_f64-asym nan (inf _) h = cc
less_f64-asym nan nan h = cc

abbrev opposite : ℤ → ℤ
opposite (pos zero) = pos 0
opposite (pos (suc n)) = negsuc n
opposite (negsuc n) = pos (suc n)

opposite_signs : (i : ℤ) → (up (opposite i) ≡ down i) × (down (opposite i) ≡ up i)
opposite_signs (pos zero) = (refl, refl)
opposite_signs (pos (suc n)) = (refl, refl)
opposite_signs (negsuc n) = (refl, refl)

compare_floats-swap : (a b : F64) → compare_floats b a ≡ opposite (compare_floats a b)
unfolding compare_floats
compare_floats-swap a b = ground (arith, less_f64-asym a b, less_f64-asym b a)

compare_texts-swap : (s t : Bytes) → compare_texts t s ≡ opposite (compare_texts s t)
unfolding compare_texts
compare_texts-swap s t = ground (arith, less_asymm s t, less_asymm t s)

by_swap :
    (s t : Option Bytes) (a b : F64)
    → compare_by t s (compare_floats b a) ≡ opposite (compare_by s t (compare_floats a b))
by_swap (some s) (some t) a b = compare_texts-swap s t
by_swap (some s) none a b = compare_floats-swap a b
by_swap none (some t) a b = compare_floats-swap a b
by_swap none none a b = compare_floats-swap a b

abbrev pub one : Node → Nodes
one a = node a no_nodes

abbrev pub two : Node → Node → Nodes
two a b = node a (node b no_nodes)

module _ (c : Strconv) where
  compare_values-swap : (a b : Value) → compare_values c b a ≡ opposite (compare_values c a b)
  unfolding compare_values
  compare_values-swap a b = by_swap (as_text a) (as_text b) (to_float c a) (to_float c b)

  module _ (item values : Item) where
    abbrev pub run : Node → Outcome
    run = eval c item values

    -- Each comparison in terms of < and =: a > b is b < a; a >= b is NOT (a < b); a <= b is
    -- NOT (b < a); a <> b is NOT (a = b); a BETWEEN b AND d is a >= b AND a <= d.
    abbrev pub Comparisons : Node → Node → Node → Type 0
    Comparisons a b d =
        (run (call (codes ">") (two a b)) ≡ run (call (codes "<") (two b a)))
        × (run (call (codes ">=") (two a b))
            ≡ run (call (codes "NOT") (one (call (codes "<") (two a b)))))
        × (run (call (codes "<=") (two a b))
            ≡ run (call (codes "NOT") (one (call (codes "<") (two b a)))))
        × (run (call (codes "<>") (two a b))
            ≡ run (call (codes "NOT") (one (call (codes "=") (two a b)))))
        × (run (call (codes "BETWEEN") (node a (two b d)))
            ≡ run (
                call (codes "AND")
                  (two (call (codes ">=") (two a b)) (call (codes "<=") (two a d)))))

    -- The comparisons agree: a > b is b < a, a >= b is NOT (a < b), a <= b is NOT (b < a), a <> b
    -- is NOT (a = b), and a BETWEEN b AND d is a >= b AND a <= d.
    pub eval-Comparisons : (a b d : Node) → Comparisons a b d
    unfolding eval apply_op operations lookup same and_outcome
    eval-Comparisons a b d =
        let va = value_of (run a) in
        let vb = value_of (run b) in
        let swap = compare_values-swap va vb in
        (
          ground (arith, swap, opposite_signs (compare_values c va vb)),
          refl,
          ground (arith, swap, opposite_signs (compare_values c va vb)),
          refl,
          refl,
        )

    -- IN: a is in a list that has b first when a = b or a is in the rest of the list.
    pub eval_in :
        (a b : Node) (ns : Nodes)
        → run (call (codes "IN") (node a (node b ns)))
          ≡ run
              (call (codes "OR") (two (call (codes "=") (two a b)) (call (codes "IN") (node a ns))))
    unfolding eval apply_op operations lookup same in_values
    eval_in a b ns = refl
