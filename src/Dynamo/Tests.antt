-- ===== src/Dynamo/Tests.antt =====
-- Expressions run, and the theorems at concrete inputs.
use mirror_cloud.Common.{
  ℕ, zero, suc, ◌+◌, ◌-◌, ◌*◌, ◌/◌, ◌%◌, ◌≡◌, refl, Bool, true, false, ◌&&◌, ◌||◌, [], ◌∷◌, ◌++◌,
  Option, none, some, leb, map, if◌then◌else◌, arith,
}
use mirror_cloud.Common.Int.{pos, up, ◌-ℤ◌, ◌+ℤ◌}
use mirror_cloud.Bytes.{Bytes, codes, same, has_prefix, is_among, is_fresh}
use mirror_cloud.GoMap.{lookup}
use mirror_cloud.Float.{F64, finite, inf, nan}
use mirror_cloud.Dynamo.Value.{
  Value, Values, text, list, no_values, value, Strconv, Item, zero_f64, one_member, at_key, to_list,
}
use mirror_cloud.Dynamo.Parse.{leaf, call, node, no_nodes, parse, parse_expr}
use mirror_cloud.Dynamo.Parse.Ends.{parse_fuel}
use mirror_cloud.Dynamo.Eval.{and_outcome, EvalError, eval_bool}
use mirror_cloud.Dynamo.Eval.Laws.{Comparisons, eval-Comparisons}
use mirror_cloud.Dynamo.Sets.{prints, add_attr, add_attr_union, set_of, old_elements, print_of}
use mirror_cloud.Dynamo.Update.{apply_update}
use mirror_cloud.Dynamo.Update.Frame.{apply_update_frame}

digits_from : ℕ → Bytes → Option ℕ
digits_from n [] = some n
digits_from n (a ∷ s) =
    let rest = digits_from (10 * n + (a - b'0')) s in
    if leb b'0' a && leb a b'9' then rest else none

abbrev parsed : Bytes → Option ℕ → F64 × Bool
parsed [] _ = (zero_f64, false)
parsed (_ ∷ _) none = (zero_f64, false)
parsed (_ ∷ _) (some n) = (finite (pos n) 0, true)

print_digits : ℕ → ℕ → Bytes
print_digits zero n = []
print_digits (suc fuel) n =
    let rest = print_digits fuel (n / 10) in
    if leb n 9 then (b'0' + n) ∷ [] else rest ++ ((b'0' + n % 10) ∷ [])

print_number : F64 → Bytes
unfolding print_digits
print_number (finite i e) = print_digits 20 (up i)
print_number (inf _) = codes "+Inf"
print_number nan = codes "NaN"

-- Whole numbers in digits.
abbrev whole : Strconv
unfolding digits_from print_number
whole = record {
  parse_float = λ s. parsed s (digits_from 0 s);
  format_float = print_number;
  print_float = print_number;
}

abbrev string_attr : Bytes → Value
string_attr s = one_member (codes "S") (text s)

abbrev number_attr : Bytes → Value
number_attr s = one_member (codes "N") (text s)

abbrev person : Item
person =
    (codes "name", string_attr (codes "Ann"))
    ∷ (codes "age", number_attr (codes "41"))
    ∷ (
      codes "tags",
      one_member (codes "SS")
          (list (value (text (codes "x")) (value (text (codes "y")) no_values))),
    )
    ∷ []

abbrev operands : Item
operands =
    (codes ":min", number_attr (codes "40"))
    ∷ (codes ":max", number_attr (codes "50"))
    ∷ (
      codes ":more",
      one_member (codes "SS")
          (list (value (text (codes "y")) (value (text (codes "z")) no_values))),
    )
    ∷ []

abbrev names : Item
names = (codes "#n", text (codes "name")) ∷ []

abbrev holds : Bytes → Bool × Option EvalError
unfolding eval_bool whole
holds s = eval_bool whole s person names operands

between_ok : holds (codes "age BETWEEN :min AND :max") ≡ (true, none)
unfolding holds
between_ok = refl

mixed_ok :
    holds (codes "(age >= :min AND begins_with(#n, An)) OR attribute_exists(gone)") ≡ (true, none)
unfolding holds ◌-ℤ◌ ◌+ℤ◌ and_outcome
mixed_ok = refl

-- BETWEEN is looked for before the connectives, so what follows its AND is all one operand.
between_and_more :
    parse_expr (codes "age BETWEEN 1 AND 50 AND gone = 3")
    ≡ call (codes "BETWEEN") (
        node
          (leaf (codes "age"))
          (node (leaf (codes "1")) (node (parse_expr (codes "50 AND gone = 3")) no_nodes)))
unfolding parse_expr has_prefix
between_and_more = refl

update_ok :
    (apply_update whole
      (codes "SET age = age + :min, other = name REMOVE #n ADD tags :more")
      person
      names
      operands).touched
    ≡ codes "age" ∷ codes "other" ∷ codes "name" ∷ codes "tags" ∷ []
unfolding apply_update whole
update_ok = refl

abbrev set_of_texts : Values → Value
set_of_texts vs = one_member (codes "SS") (list vs)

abbrev yz : Values
yz = value (text (codes "y")) (value (text (codes "z")) no_values)

abbrev xy : Values
xy = value (text (codes "x")) (value (text (codes "y")) no_values)

yz_set : set_of (set_of_texts yz) ≡ some (text (codes "y") ∷ text (codes "z") ∷ [])
unfolding at_key to_list same
yz_set = refl

update_runs :
    (apply_update whole (codes "SET age = age + :min REMOVE #n") person names operands).error ≡ none
unfolding apply_update whole
update_runs = refl

update_touches :
    is_among
      (codes "tags")
      (apply_update whole (codes "SET age = age + :min REMOVE #n") person names operands).touched
    ≡ false
unfolding apply_update whole is_among
update_touches = refl

parse_fuel_example : parse 20 (codes "a = b OR NOT (c)") ≡ parse 30 (codes "a = b OR NOT (c)")
parse_fuel_example = parse_fuel 20 30 (codes "a = b OR NOT (c)") (omega arith) (omega arith)

eval-Comparisons_example :
    Comparisons whole person operands
      (leaf (codes "age"))
      (leaf (codes ":min"))
      (leaf (codes ":max"))
eval-Comparisons_example =
    eval-Comparisons whole person operands (leaf (codes "age")) (leaf (codes ":min"))
      (leaf (codes ":max"))

add_attr_union_example :
    ((k : Bytes)
      → is_among k (prints whole (add_attr whole (set_of_texts xy) (set_of_texts yz)))
        ≡ is_among k (map (print_of whole) (old_elements (set_of_texts xy)))
          || is_among k (map (print_of whole) (text (codes "y") ∷ text (codes "z") ∷ [])))
    × (is_fresh [] (prints whole (add_attr whole (set_of_texts xy) (set_of_texts yz))) ≡ true)
add_attr_union_example =
    add_attr_union whole (set_of_texts xy) (set_of_texts yz)
      (text (codes "y") ∷ text (codes "z") ∷ []) yz_set

abbrev update_expr : Bytes
update_expr = codes "SET age = age + :min REMOVE #n"

apply_update_frame_example :
    lookup (codes "tags") (apply_update whole update_expr person names operands).item
    ≡ lookup (codes "tags") person
apply_update_frame_example =
    apply_update_frame whole operands (codes "tags") update_expr person names update_runs
      update_touches
