-- ===== src/Dynamo/Update.antt =====
-- ApplyUpdate and Project of internal/services/aws/dynamodb/expr/expr.go. An item is changed in
-- place, also before an error.
pub mod Frame
use mirror_cloud.Common.{
  ℕ, zero, suc, ◌+◌, ◌-◌, ◌*◌, ◌^◌, Bool, true, false, ◌&&◌, ◌||◌, List, [], ◌∷◌, ◌++◌, Option,
  none, some, ◌==◌, leb, ltb, get_elem?, or_else, if◌then◌else◌,
}
use mirror_cloud.Bytes.{Bytes, codes, same, has_prefix, trim_prefix, has_byte, cut, is_empty}
use mirror_cloud.Bytes.Words.{is_space, trim_left, trim_space, split, fields, join_with}
use mirror_cloud.GoMap.{lookup, insert, remove}
use mirror_cloud.Dynamo.Value.{
  Value, Members, null, object, Strconv, Item, at_key, to_members, to_attr, as_list,
}
use mirror_cloud.Dynamo.Split.{split_args, split_top}
use mirror_cloud.Dynamo.Parse.{parse_expr}
use mirror_cloud.Dynamo.Eval.{EvalError, Outcome, ok, failed, eval, subst_names}
use mirror_cloud.Dynamo.Sets.{add_attr, delete_from_set}

-- What an update has done: the item, the names touched, and the error that ended it.
pub record Update : Type 0 where
  pub item : Item
  pub touched : List Bytes
  pub error : Option EvalError

-- One action of a clause.
pub data Action : Type 0 where
  skip : Action
  write : Bytes → Item → Action
  stop : EvalError → Action

abbrev pub write_value : Outcome → Bytes → (Value → Item) → Action
write_value (ok v) name f = write name (f v)
write_value (failed _ e) name f = stop e

-- The update after an action, by what goes on where the action is no error.
abbrev pub after_action : (Update → Update) → Update → Action → Update
after_action go_on u skip = go_on u
after_action go_on u (write name item) =
    go_on record { item = item; touched = u.touched ++ (name ∷ []); error = u.error }
after_action go_on u (stop e) = record { item = u.item; touched = u.touched; error = some e }

-- The loop of a clause.
unfoldable pub each : (Item → Bytes → Action) → List Bytes → Update → Update
each f [] u = u
each f (s ∷ ss) u = after_action (each f ss) u (f u.item s)

-- The arguments of a clause.
unfoldable pub arguments : Bytes → Bytes → List Bytes
unfolding split_args trim_prefix
arguments word part = split_args (trim_prefix word part)

-- REMOVE
unfoldable pub remove_one : Item → Bytes → Action
unfolding trim_space remove
remove_one item name = write (trim_space name) (remove (trim_space name) item)

module _ (c : Strconv) (values : Item) where
  -- SET
  unfoldable pub set_one : Item → Bytes → Action
  unfolding cut trim_space eval parse_expr to_attr insert
  set_one item assign =
      let (left, right, found) = cut b'=' assign in
      let name = trim_space left in
      if found
      then write_value (eval c item values (parse_expr (trim_space right))) name
          (λ v. insert name (to_attr c v) item)
      else skip

  unfoldable pub combine_words : (Value → Value → Value) → Item → List Bytes → Action
  unfolding join_with eval parse_expr insert lookup
  combine_words f item (name ∷ word ∷ words) =
      write_value (eval c item values (parse_expr (join_with (codes " ") (word ∷ words)))) name
        (λ v. insert name (f (or_else null (lookup name item)) v) item)
  combine_words f item _ = skip

  -- ADD and DELETE, by what is made of the attribute and the operand.
  unfoldable pub combine_one : (Value → Value → Value) → Item → Bytes → Action
  unfolding fields trim_space combine_words
  combine_one f item pair = combine_words f item (fields (trim_space pair))

  -- A clause
  unfoldable pub apply_part : Bytes → Update → Update
  unfolding has_prefix each set_one remove_one combine_one add_attr delete_from_set arguments
  apply_part part u =
      if has_prefix (codes "SET ") part
      then each set_one (arguments (codes "SET ") part) u
      else if has_prefix (codes "REMOVE ") part
      then each remove_one (arguments (codes "REMOVE ") part) u
      else if has_prefix (codes "ADD ") part
      then each (combine_one (add_attr c)) (arguments (codes "ADD ") part) u
      else if has_prefix (codes "DELETE ") part
      then each (combine_one (delete_from_set c)) (arguments (codes "DELETE ") part) u
      else u

  unfoldable pub apply_parts : List Bytes → Update → Update
  unfolding apply_part trim_space
  apply_parts [] u = u
  apply_parts (p ∷ ps) u =
      let v = apply_part (trim_space p) u in elim v.error [ none ↦ apply_parts ps v | some _ ↦ v ]

abbrev pub returned_by : Option EvalError → Update → Update
returned_by none u = u
returned_by (some e) u = record { item = u.item; touched = []; error = some e }

-- What is returned: no names beside an error.
abbrev pub returned : Update → Update
returned u = returned_by u.error u

-- ApplyUpdate
unfoldable pub apply_update : Strconv → Bytes → Item → Item → Item → Update
unfolding apply_parts split_top subst_names
apply_update c expr item names values = returned (
    apply_parts c values (split_top (subst_names expr names))
      record { item = item; touched = []; error = none })

abbrev is_digit : ℕ → Bool
is_digit a = leb b'0' a && leb a b'9'

digits_of : ℕ → Bytes → ℕ
digits_of n [] = n
digits_of n (a ∷ s) = elim (is_digit a) [ true ↦ digits_of (10 * n + (a - b'0')) s | false ↦ n ]

abbrev starts_digit : Bytes → Bool
starts_digit [] = false
starts_digit (a ∷ s) = is_digit a

abbrev small : ℕ → Option ℕ
small n = if ltb n (2 ^ 63) then some n else none

-- The digits after a sign; a negative number is no index.
signed_index : Bytes → Option ℕ
unfolding digits_of
signed_index [] = none
signed_index (a ∷ s) =
    if a == b'-'
    then (if starts_digit s && digits_of 0 s == 0 then some 0 else none)
    else if a == b'+'
    then (if starts_digit s then small (digits_of 0 s) else none)
    else if is_digit a
    then small (digits_of 0 (a ∷ s))
    else none

-- fmt.Sscanf(s, "[%d]", &idx) after the bracket: the index, if one is read that is not negative.
unfoldable pub scan_index : Bytes → Option ℕ
unfolding signed_index trim_left
scan_index s = signed_index (trim_left s)

-- m[name], or that of the map under M.
unfoldable pub member_at : Bytes → Members → Option Value
unfolding at_key
member_at name m = elim (at_key name m) [
  | some v ↦ some v
  | none ↦ elim (at_key (codes "M") m) [ some (object inner) ↦ at_key name inner | _ ↦ none ]
]

-- The element that a segment asks for, where it has an index.
abbrev indexed : Option ℕ → Value → Option Value
indexed none v = some v
indexed (some i) v = get_elem? (as_list v) i

abbrev index_of_segment : Bytes × Bytes × Bool → Option ℕ
index_of_segment (name, inside, found) = if found then scan_index inside else none

-- One segment of a path.
unfoldable pub walk_one : Bytes → Value → Option Value
unfolding cut scan_index member_at as_list
walk_one seg (object m) =
    let parts = cut b'[' seg in
    elim (member_at parts.0 m) [ none ↦ none | some v ↦ indexed (index_of_segment parts) v ]
walk_one seg _ = none

unfoldable pub walk_from : List Bytes → Value → Option Value
unfolding walk_one
walk_from [] cur = some cur
walk_from (seg ∷ segs) cur = elim (walk_one seg cur) [ none ↦ none | some v ↦ walk_from segs v ]

-- walkPath
unfoldable pub walk_path : Item → Bytes → Option Value
unfolding walk_from split to_members
walk_path item path = walk_from (split b'.' path) (object (to_members item))

abbrev first_of : List Bytes → Bytes
first_of [] = []
first_of (p ∷ _) = p

-- setPath
unfoldable pub set_path : Item → Bytes → Value → Item
unfolding insert has_byte split
set_path out path v =
    if has_byte b'.' path || has_byte b'[' path
    then insert (first_of (split b'.' path)) v (insert path v out)
    else insert path v out

unfoldable pub project_parts : Item → List Bytes → Item → Item
unfolding trim_space walk_path set_path
project_parts item [] out = out
project_parts item (p ∷ ps) out =
    let part = trim_space p in
    project_parts item ps (
      if is_empty part
      then out
      else elim (walk_path item part) [ none ↦ out | some v ↦ set_path out part v ])

-- Project
unfoldable pub project : Bytes → Item → Item → Item
unfolding trim_space project_parts split_args subst_names
project expr item names =
    if is_empty (trim_space expr)
    then item
    else project_parts item (split_args (subst_names expr names)) []
