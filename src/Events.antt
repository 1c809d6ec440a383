-- ===== src/Events.antt =====
-- Event patterns: matchFields and what it calls in
-- internal/services/aws/events/events_extra.go, on decoded JSON values.
pub mod Wildcard
pub mod Fields
mod Tests
use mirror_cloud.Common.{
  ℕ, zero, suc, Bool, true, false, not, ◌&&◌, ◌||◌, List, [], ◌∷◌, ◌++◌, Option, none, some, ◌==◌,
  is_some, if◌then◌else◌,
}
use mirror_cloud.Bytes.{Bytes, codes, same, has_prefix, has_byte}
use mirror_cloud.Bytes.Fold.{has_suffix, equal_fold}
use mirror_cloud.Bytes.Words.{trim_space, replace_all}
use mirror_cloud.Float.{F64}
use mirror_cloud.Float.Compare.{equal_f64, less_f64, less_eq_f64}
use mirror_cloud.Dynamo.Value.{
  Value, Values, Members, null, text, num, bool, list, object, no_values, value, no_members, member,
  at_key,
}

-- What the code takes from the standard library: strconv.ParseFloat with whether it gives no
-- error, json.Marshal, whether a CIDR block that parses contains an address, and whether a regular
-- expression compiles and matches a text.
pub record Library : Type 0 where
  pub parse_float : Bytes → F64 × Bool
  pub marshal : Value → Bytes
  pub cidr_contains : Bytes → Bytes → Bool
  pub match_string : Bytes → Bytes → Bool

-- The bytes that regexp.QuoteMeta puts a backslash before.
abbrev pub is_special : ℕ → Bool
unfolding has_byte
is_special c = has_byte c (92 ∷ codes ".+*?()|[]{}^$")

-- regexp.QuoteMeta
unfoldable pub quote_meta : Bytes → Bytes
quote_meta [] = []
quote_meta (c ∷ s) = let rest = quote_meta s in if is_special c then 92 ∷ c ∷ rest else c ∷ rest

-- "^" + strings.ReplaceAll(regexp.QuoteMeta(pattern), `\*`, ".*") + "$"
unfoldable pub wildcard_expression : Bytes → Bytes
unfolding replace_all quote_meta
wildcard_expression pattern =
    codes "^" ++ (replace_all (quote_meta pattern) (92 ∷ b'*' ∷ []) (codes ".*") ++ codes "$")

-- matchWildcard
unfoldable pub match_wildcard : Library → Bytes → Bytes → Bool
unfolding wildcard_expression
match_wildcard l pattern got = l.match_string (wildcard_expression pattern) got

-- reflect.DeepEqual of decoded values: maps by their keys.
unfoldable pub count : Members → ℕ
count no_members = 0
count (member k v m) = suc (count m)

unfoldable mutual
  unfolding at_key count

  pub deep_equal : Value → Value → Bool
  deep_equal null null = true
  deep_equal (text s) (text t) = same s t
  deep_equal (num a) (num b) = equal_f64 a b
  deep_equal (bool a) (bool b) = a && b || not a && not b
  deep_equal (list v) (list w) = all_equal v w
  deep_equal (object m) (object n) = count m == count n && members_equal m n
  deep_equal _ _ = false

  pub all_equal : Values → Values → Bool
  all_equal no_values no_values = true
  all_equal (value a v) (value b w) = deep_equal a b && all_equal v w
  all_equal _ _ = false

  pub members_equal : Members → Members → Bool
  members_equal no_members n = true
  members_equal (member k a m) n =
      elim (at_key k n) [ none ↦ false | some b ↦ deep_equal a b ] && members_equal m n

-- str
abbrev pub text_of : Value → Bytes
text_of (text s) = s
text_of _ = []

-- toString
unfoldable pub to_string : Library → Value → Bytes
to_string l (text s) = s
to_string l v = l.marshal v

-- The condition of one operator on numbers, if it is an operator.
abbrev pub numeric_op : Bytes → F64 → F64 → Bool
numeric_op op got want =
    if same op (codes "=")
    then equal_f64 got want
    else if same op (codes ">")
    then not (less_eq_f64 got want)
    else if same op (codes ">=")
    then not (less_f64 got want)
    else if same op (codes "<")
    then not (less_eq_f64 want got)
    else if same op (codes "<=")
    then not (less_f64 want got)
    else false

-- The loop of matchNumeric, over pairs of an operator and a number.
unfoldable pub numeric_pairs : Library → Values → F64 → Bool
unfolding to_string same equal_f64 less_f64 less_eq_f64
numeric_pairs l no_values got = true
numeric_pairs l (value op no_values) got = false
numeric_pairs l (value op (value bound rest)) got =
    let want = l.parse_float (to_string l bound) in
    want.1 && (numeric_op (text_of op) got want.0 && numeric_pairs l rest got)

abbrev is_pairs : Values → Bool
is_pairs no_values = true
is_pairs (value _ no_values) = false
is_pairs (value _ (value _ rest)) = is_pairs rest

abbrev is_none : Values → Bool
is_none no_values = true
is_none (value _ _) = false

-- matchNumeric
unfoldable pub match_numeric : Library → Values → Value → Bool
unfolding numeric_pairs to_string trim_space
match_numeric l conditions v =
    let got = l.parse_float (trim_space (to_string l v)) in
    got.1 && (not (is_none conditions) && (is_pairs conditions && numeric_pairs l conditions got.0))

-- Whether a text in a clause object passes a test.
abbrev pub text_test : Option Value → (Bytes → Bool) → Option Bool
text_test (some (text s)) f = some (f s)
text_test _ f = none

abbrev pub list_test : Option Value → (Values → Bool) → Option Bool
list_test (some (list vs)) f = some (f vs)
list_test _ f = none

-- want == exists, if the clause asks for it.
abbrev pub exists_test : Option Value → Bool → Option Bool
exists_test (some (bool want)) there = some (want && there || not want && not there)
exists_test _ there = none

abbrev pub or_test : Option Bool → Bool → Bool
or_test (some b) rest = b
or_test none rest = rest

-- matchClause of an object, by what its anything-but answers.
unfoldable pub match_object : Library → Members → Option Bool → Value → Bool → Bool
unfolding at_key has_prefix has_suffix equal_fold match_wildcard match_numeric
match_object l m but v there =
    let got = text_of v in
    or_test (exists_test (at_key (codes "exists") m) there) (
      if not there
      then false
      else or_test (text_test (at_key (codes "prefix") m) (λ p. has_prefix p got)) (
          or_test (text_test (at_key (codes "suffix") m) (λ p. has_suffix p got)) (
            or_test (text_test (at_key (codes "equals-ignore-case") m) (λ p. equal_fold got p)) (
              or_test (text_test (at_key (codes "wildcard") m) (λ p. match_wildcard l p got)) (
                or_test (text_test (at_key (codes "cidr") m) (λ p. l.cidr_contains p got)) (
                  or_test but (
                    or_test (list_test (at_key (codes "numeric") m) (λ c. match_numeric l c v))
                      false)))))))

-- matchClause; `rejected` is what anything-but answers, and `any_clause` whether one of the
-- unwanted clauses matches.
unfoldable mutual
  unfolding match_object deep_equal same

  pub match_clause : Library → Value → Value → Bool → Bool
  match_clause l (object m) v there = match_object l m (rejected l m v) v there
  match_clause l null v there = there && deep_equal null v
  match_clause l (text s) v there = there && deep_equal (text s) v
  match_clause l (num f) v there = there && deep_equal (num f) v
  match_clause l (bool b) v there = there && deep_equal (bool b) v
  match_clause l (list vs) v there = there && deep_equal (list vs) v

  pub rejected : Library → Members → Value → Option Bool
  rejected l no_members v = none
  rejected l (member k w m) v =
      let further = rejected l m v in
      let unwanted = any_unwanted l w v in
      if same k (codes "anything-but") then some (not unwanted) else further

  pub any_unwanted : Library → Value → Value → Bool
  any_unwanted l (list vs) v = any_clause l vs v
  any_unwanted l (object m) v = match_object l m (rejected l m v) v true
  any_unwanted l null v = deep_equal null v
  any_unwanted l (text s) v = deep_equal (text s) v
  any_unwanted l (num f) v = deep_equal (num f) v
  any_unwanted l (bool b) v = deep_equal (bool b) v

  pub any_clause : Library → Values → Value → Bool
  any_clause l no_values v = false
  any_clause l (value w ws) v = match_clause l w v true || any_clause l ws v

-- One clause on the items of an array.
unfoldable pub any_item : Library → Value → Values → Bool
unfolding match_clause
any_item l clause no_values = false
any_item l clause (value v vs) = match_clause l clause v true || any_item l clause vs

abbrev pub match_one : Library → Value → Value → Bool → Bool
match_one l clause (list vs) there = any_item l clause vs
match_one l clause v there = match_clause l clause v there

-- matchClauses
unfoldable pub match_clauses : Library → Values → Value → Bool → Bool
unfolding any_item match_clause
match_clauses l no_values v there = false
match_clauses l (value clause clauses) v there =
    match_one l clause v there || match_clauses l clauses v there

-- The objects of an array, of which one is to match.
unfoldable pub any_object : (Members → Bool) → Values → Bool
any_object f no_values = false
any_object f (value (object m) vs) = f m || any_object f vs
any_object f (value _ vs) = any_object f vs

-- matchNested, by how the pattern matches an object.
abbrev pub match_nested : (Members → Bool) → Option Value → Bool
match_nested f (some (object m)) = f m
match_nested f (some (list vs)) = any_object f vs
match_nested f _ = false

abbrev pub or_null : Option Value → Value
or_null none = null
or_null (some v) = v

-- matchFields
unfoldable mutual
  unfolding match_clauses any_object at_key same

  pub match_fields : Library → Members → Members → Bool
  match_fields l no_members event = true
  match_fields l (member k want m) event = match_field l k want event && match_fields l m event

  pub match_field : Library → Bytes → Value → Members → Bool
  match_field l k (object p) event =
      not (same k (codes "$or")) && match_nested (match_fields l p) (at_key k event)
  match_field l k (list vs) event =
      let alternative = any_alternative l vs event in
      if same k (codes "$or")
      then alternative
      else match_clauses l vs (or_null (at_key k event)) (is_some (at_key k event))
  match_field l k _ event = false

  pub any_alternative : Library → Values → Members → Bool
  any_alternative l no_values event = false
  any_alternative l (value (object p) vs) event =
      match_fields l p event || any_alternative l vs event
  any_alternative l (value _ vs) event = any_alternative l vs event
