-- ===== src/Iam/Condition.antt =====
-- conditionsMatch and numericMatch of internal/services/aws/iam/authorizer.go. What
-- strconv.ParseFloat makes of a text is a parameter.
pub mod IfExists
use mirror_cloud.Common.{
  ℕ, Bool, true, false, not, ◌&&◌, ◌||◌, List, [], ◌∷◌, ◌++◌, Option, none, some, or_else, is_some,
  if◌then◌else◌,
}
use mirror_cloud.Bytes.{Bytes, codes, same}
use mirror_cloud.Bytes.Fold.{equal_fold, has_suffix, trim_suffix}
use mirror_cloud.GoMap.{GoMap}
use mirror_cloud.Json.{Json, Members, no_members, member, as_object}
use mirror_cloud.Float.{F64}
use mirror_cloud.Float.Compare.{equal_f64, less_f64, less_eq_f64}
use mirror_cloud.Iam.Policy.{any_of, str, as_strings, condition_value, matches_any}

abbrev pub one_of : List Bytes → Bytes → Bool
one_of names op = any_of (λ name. same op name) names

abbrev pub if_exists : Bytes
if_exists = codes "IfExists"

abbrev pub equals_ops : List Bytes
equals_ops = codes "StringEquals" ∷ codes "ArnEquals" ∷ []

abbrev pub not_equals_ops : List Bytes
not_equals_ops = codes "StringNotEquals" ∷ codes "ArnNotEquals" ∷ []

abbrev pub like_ops : List Bytes
like_ops = codes "StringLike" ∷ codes "ArnLike" ∷ []

abbrev pub not_like_ops : List Bytes
not_like_ops = codes "StringNotLike" ∷ codes "ArnNotLike" ∷ []

abbrev pub numeric_ops : List Bytes
numeric_ops =
    codes "NumericEquals"
    ∷ codes "NumericNotEquals"
    ∷ codes "NumericLessThan"
    ∷ codes "NumericLessThanEquals"
    ∷ codes "NumericGreaterThan"
    ∷ codes "NumericGreaterThanEquals"
    ∷ []

abbrev pub null_op : Bytes
null_op = codes "Null"

module _ (parse_float : Bytes → Option F64) where
  -- `b, err := ParseFloat(value); err == nil && test(b)`
  parsed_and : (F64 → Bool) → Bytes → Bool
  parsed_and test value = elim (parse_float value) [ none ↦ false | some b ↦ test b ]

  -- The switch of the second loop.
  unfoldable pub compares : Bytes → F64 → F64 → Bool
  compares op a b =
      if same op (codes "NumericEquals")
      then equal_f64 a b
      else if same op (codes "NumericLessThan")
      then less_f64 a b
      else if same op (codes "NumericLessThanEquals")
      then less_eq_f64 a b
      else if same op (codes "NumericGreaterThan")
      then less_f64 b a
      else if same op (codes "NumericGreaterThanEquals")
      then less_eq_f64 b a
      else false

  -- numericMatch
  unfoldable pub numeric_match : Bytes → Bytes → List Bytes → Bool
  unfolding parsed_and compares any_of
  numeric_match op actual expected = elim (parse_float actual) [
    | none ↦ false
    | some a ↦
        if same op (codes "NumericNotEquals")
        then not (any_of (parsed_and (equal_f64 a)) expected)
        else any_of (parsed_and (compares op a)) expected
  ]

  -- The switch of the loop over the entries of one operator, at the value that the request has.
  unfoldable pub switch : Bytes → Option Bytes → Json → Bool
  unfolding any_of
  switch op actual expected =
      let present = is_some actual in
      let value = or_else [] actual in
      let values = as_strings (some expected) in
      if one_of equals_ops op
      then present && any_of (same value) values
      else if one_of not_equals_ops op
      then not (present && any_of (same value) values)
      else if one_of like_ops op
      then present && matches_any values value
      else if one_of not_like_ops op
      then not (present && matches_any values value)
      else if one_of numeric_ops op
      then present && numeric_match op value values
      else if same op null_op
      then (if equal_fold (str (some expected)) (codes "true") then not present else present)
      else false

  unfoldable pub entry_holds : GoMap Bytes → Bytes → Bytes → Json → Bool
  unfolding switch
  entry_holds request operator key expected =
      let actual = condition_value request key in
      let op = trim_suffix if_exists operator in
      if not (is_some actual) && not (same op null_op) && has_suffix if_exists operator
      then true
      else switch op actual expected

  entries_hold : GoMap Bytes → Bytes → Members → Bool
  unfolding entry_holds
  entries_hold request operator no_members = true
  entries_hold request operator (member key expected entries) =
      entry_holds request operator key expected && entries_hold request operator entries

  operators_hold : GoMap Bytes → Members → Bool
  unfolding entries_hold
  operators_hold request no_members = true
  operators_hold request (member operator raw operators) =
      entries_hold request operator (as_object (some raw)) && operators_hold request operators

  -- conditionsMatch
  unfoldable pub conditions_match : Option Json → GoMap Bytes → Bool
  unfolding operators_hold
  conditions_match spec request = operators_hold request (as_object spec)
