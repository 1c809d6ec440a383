-- ===== src/Dynamo/Eval.antt =====
-- eval and EvalBool of internal/services/aws/dynamodb/expr/expr.go. An operator's operands are
-- all evaluated, since evaluation changes nothing.
pub mod Laws
use mirror_cloud.Common.{
  ℕ, zero, suc, Bool, true, false, not, ◌&&◌, ◌||◌, List, [], ◌∷◌, ◌++◌, Option, none, some, ◌==◌,
  ltb, leb, length, get_elem?, drop, is_some, or_else, if◌then◌else◌,
}
use mirror_cloud.Common.Int.{ℤ, pos, up, down}
use mirror_cloud.Bytes.{Bytes, codes, same, has_prefix}
use mirror_cloud.Bytes.Words.{contains, replace_all}
use mirror_cloud.GoMap.{GoMap, lookup}
use mirror_cloud.Float.{finite}
use mirror_cloud.Float.Arith.{add_f64, sub_f64}
use mirror_cloud.Dynamo.Value.{
  Value, null, text, num, bool, list, Strconv, Item, of_list, unwrap, sprint, to_float,
  compare_values, as_list, attr_type,
}
use mirror_cloud.Dynamo.Parse.{Node, Nodes, leaf, call, no_nodes, node, parse_expr}

pub data EvalError : Type 0 where
  too_few_operands : Bytes → EvalError
  unsupported_op : Bytes → EvalError

-- What eval answers: a value, or an error with the value returned beside it.
pub data Outcome : Type 0 where
  ok : Value → Outcome
  failed : Value → EvalError → Outcome

-- a, _ := eval(…)
abbrev pub value_of : Outcome → Value
value_of (ok v) = v
value_of (failed v _) = v

-- b, _ := v.(bool)
abbrev pub as_bool : Value → Bool
as_bool (bool b) = b
as_bool _ = false

-- n.val, of which an operator has none.
abbrev pub val_of : Node → Bytes
val_of (leaf s) = s
val_of (call _ _) = []

abbrev pub node_list : Nodes → List Node
node_list no_nodes = []
node_list (node n ns) = n ∷ node_list ns

-- kid(i).val
abbrev pub kid_val : ℕ → Nodes → Bytes
kid_val i ns =
    or_else [] (elim (get_elem? (node_list ns) i) [ none ↦ none | some n ↦ some (val_of n) ])

abbrev is_zero : ℤ → Bool
is_zero i = up i == down i

abbrev is_negative : ℤ → Bool
is_negative i = ltb (up i) (down i)

abbrev is_positive : ℤ → Bool
is_positive i = ltb (down i) (up i)

-- a && b of AND, whose first failing operand is the answer.
unfoldable pub and_outcome : ℕ → Outcome → Outcome → Outcome
and_outcome (suc (suc _)) (ok a) (ok b) = ok (bool (as_bool a && as_bool b))
and_outcome (suc (suc _)) (ok a) (failed _ e) = failed null e
and_outcome (suc (suc _)) (failed _ e) _ = failed null e
and_outcome (suc zero) _ _ = failed (bool false) (too_few_operands (codes "AND"))
and_outcome zero _ _ = failed (bool false) (too_few_operands (codes "AND"))

-- k <= len(l)
abbrev at_least {ℓ} : {A : Type ℓ} → ℕ → List A → Bool
at_least zero l = true
at_least (suc k) [] = false
at_least (suc k) (_ ∷ l) = at_least k l

-- An answer, if there are operands enough.
abbrev needing : Bool → Bytes → Bool → Outcome
needing enough op answer =
    if enough then ok (bool answer) else failed (bool false) (too_few_operands op)

module _ (c : Strconv) where
  open c use {parse_float}

  unfoldable pub in_values : Value → List Outcome → Bool
  unfolding compare_values
  in_values v [] = false
  in_values v (w ∷ ws) = is_zero (compare_values c v (value_of w)) || in_values v ws

  module _ (item values : Item) where
    -- eval of a text
    unfoldable pub leaf_value : Bytes → Value
    unfolding unwrap lookup has_prefix same
    leaf_value s =
        if has_prefix (codes ":") s
        then unwrap c (or_else null (lookup s values))
        else elim (lookup s item) [
          | some v ↦ unwrap c v
          | none ↦
              if same s (codes "true")
              then bool true
              else if same s (codes "false")
              then bool false
              else if (parse_float s).1
              then num (parse_float s).0
              else text s
        ]

    -- eval(kid(i), …), where an operand that is not there is an empty text.
    abbrev pub outcome_at : ℕ → List Outcome → Outcome
    outcome_at i outs = or_else (ok (leaf_value [])) (get_elem? outs i)

    abbrev pub arg : ℕ → List Outcome → Value
    arg i outs = value_of (outcome_at i outs)

    abbrev truth : Bool → Outcome
    truth b = ok (bool b)

    abbrev text_at : ℕ → List Outcome → Bytes
    text_at i outs = sprint c (arg i outs)

    abbrev order : List Outcome → ℤ
    order outs = compare_values c (arg 0 outs) (arg 1 outs)

    -- The item's attribute by the name that the operand evaluates to or is.
    attribute : Nodes → List Outcome → Value
    unfolding lookup sprint leaf_value
    attribute kids outs =
        or_else (or_else null (lookup (kid_val 0 kids) item)) (lookup (text_at 0 outs) item)

    -- The switch of eval, by operator.
    unfoldable pub operations : Nodes → List Outcome → GoMap Outcome
    unfolding compare_values leaf_value attribute
    operations kids outs =
        (codes "AND", and_outcome (length outs) (outcome_at 0 outs) (outcome_at 1 outs))
        ∷ (
          codes "OR",
          needing (at_least 2 outs) (codes "OR") (as_bool (arg 0 outs) || as_bool (arg 1 outs)),
        )
        ∷ (codes "NOT", needing (at_least 1 outs) (codes "NOT") (not (as_bool (arg 0 outs))))
        ∷ (codes "=", truth (is_zero (order outs)))
        ∷ (codes "<>", truth (not (is_zero (order outs))))
        ∷ (codes "<", truth (is_negative (order outs)))
        ∷ (codes ">", truth (is_positive (order outs)))
        ∷ (codes "<=", truth (not (is_positive (order outs))))
        ∷ (codes ">=", truth (not (is_negative (order outs))))
        ∷ (
          codes "BETWEEN",
          truth (
              not (is_negative (order outs))
              && not (is_positive (compare_values c (arg 0 outs) (arg 2 outs)))),
        )
        ∷ (codes "attribute_exists", truth (is_some (lookup (kid_val 0 kids) item)))
        ∷ (codes "attribute_not_exists", truth (not (is_some (lookup (kid_val 0 kids) item))))
        ∷ (codes "begins_with", truth (has_prefix (text_at 1 outs) (text_at 0 outs)))
        ∷ (codes "contains", truth (contains (text_at 1 outs) (text_at 0 outs)))
        ∷ (codes "size", ok (num (finite (pos (length (text_at 0 outs))) 0)))
        ∷ (codes "IN", truth (in_values (arg 0 outs) (drop 1 outs)))
        ∷ (codes "attribute_type", truth (same (attr_type (attribute kids outs)) (text_at 1 outs)))
        ∷ (codes "+", ok (num (add_f64 (to_float c (arg 0 outs)) (to_float c (arg 1 outs)))))
        ∷ (codes "-", ok (num (sub_f64 (to_float c (arg 0 outs)) (to_float c (arg 1 outs)))))
        ∷ (
          codes "if_not_exists",
          if is_some (lookup (kid_val 0 kids) item) then outcome_at 0 outs else outcome_at 1 outs,
        )
        ∷ (codes "list_append", ok (list (of_list (as_list (arg 0 outs) ++ as_list (arg 1 outs)))))
        ∷ []

    unfoldable pub apply_op : Bytes → Nodes → List Outcome → Outcome
    unfolding operations lookup
    apply_op op kids outs =
        or_else (failed null (unsupported_op op)) (lookup op (operations kids outs))

    unfoldable mutual
      unfolding leaf_value apply_op

      pub eval : Node → Outcome
      eval (leaf s) = ok (leaf_value s)
      eval (call op kids) = apply_op op kids (eval_all kids)

      pub eval_all : Nodes → List Outcome
      eval_all no_nodes = []
      eval_all (node n ns) = eval n ∷ eval_all ns

-- The names of an expression that are texts.
text_name : Bytes → Bytes → Value → Bytes
unfolding replace_all
text_name s k (text name) = replace_all s k name
text_name s k _ = s

-- substNames: the placeholders replaced, in the order in which the map is ranged over.
unfoldable pub subst_names : Bytes → Item → Bytes
unfolding text_name
subst_names s [] = s
subst_names s ((k, v) ∷ names) = subst_names (text_name s k v) names

abbrev bool_outcome : Outcome → Bool × Option EvalError
bool_outcome (ok v) = (as_bool v, none)
bool_outcome (failed _ e) = (false, some e)

-- EvalBool
unfoldable pub eval_bool : Strconv → Bytes → Item → Item → Item → Bool × Option EvalError
unfolding subst_names parse_expr eval
eval_bool c expr item names values =
    bool_outcome (eval c item values (parse_expr (subst_names expr names)))
