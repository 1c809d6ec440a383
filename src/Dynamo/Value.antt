-- ===== src/Dynamo/Value.antt =====
-- The values of expressions (internal/services/aws/dynamodb/expr/expr.go): `any` of decoded JSON,
-- with what the code makes of them.
use mirror_cloud.Common.{Bool, true, false, List, [], ◌∷◌, ◌++◌, Option, none, some, if◌then◌else◌}
use mirror_cloud.Common.Int.{ℤ, pos, negsuc}
use mirror_cloud.Bytes.{Bytes, codes, same, less}
use mirror_cloud.Bytes.Words.{join_with}
use mirror_cloud.GoMap.{GoMap}
use mirror_cloud.Float.{F64, finite}
use mirror_cloud.Float.Compare.{less_f64}

mutual
  pub data Value : Type 0 where
    null : Value
    text : Bytes → Value
    num : F64 → Value
    bool : Bool → Value
    list : Values → Value
    object : Members → Value

  pub data Values : Type 0 where
    no_values : Values
    value : Value → Values → Values

  pub data Members : Type 0 where
    no_members : Members
    member : Bytes → Value → Members → Members

-- strconv and the printing of a number: what ParseFloat answers and whether without an error,
-- FormatFloat of format 'f', and the verb %v.
pub record Strconv : Type 0 where
  pub parse_float : Bytes → F64 × Bool
  pub format_float : F64 → Bytes
  pub print_float : F64 → Bytes

-- An item: a map of attributes.
abbrev pub Item : Type 0
Item = GoMap Value

unfoldable pub at_key : Bytes → Members → Option Value
at_key k no_members = none
at_key k (member j v m) = if same j k then some v else at_key k m

unfoldable pub to_list : Values → List Value
to_list no_values = []
to_list (value v vs) = v ∷ to_list vs

unfoldable pub of_list : List Value → Values
of_list [] = no_values
of_list (v ∷ vs) = value v (of_list vs)

unfoldable pub to_members : Item → Members
to_members [] = no_members
to_members ((k, v) ∷ m) = member k v (to_members m)

abbrev pub one_member : Bytes → Value → Value
one_member k v = object (member k v no_members)

abbrev pub zero_f64 : F64
zero_f64 = finite (pos 0) 0

abbrev zero_of : Option Value → (Bytes → Value) → Value → Value
zero_of (some (text s)) f v = f s
zero_of _ f v = v

abbrev bool_of : Option Value → Value → Value
bool_of (some (bool b)) v = bool b
bool_of _ v = v

-- The printing of a map sorts its keys.
place_member : Bytes × Bytes → List (Bytes × Bytes) → List (Bytes × Bytes)
place_member e [] = e ∷ []
place_member (k, v) ((j, w) ∷ m) =
    if less j k then (j, w) ∷ place_member (k, v) m else (k, v) ∷ (j, w) ∷ m

colon_pairs : List (Bytes × Bytes) → List Bytes
colon_pairs [] = []
colon_pairs ((k, v) ∷ m) = (k ++ (codes ":" ++ v)) ∷ colon_pairs m

-- as, aok := a.(string)
abbrev pub as_text : Value → Option Bytes
as_text (text s) = some s
as_text _ = none

-- strings.Compare
unfoldable pub compare_texts : Bytes → Bytes → ℤ
compare_texts s t = if less s t then negsuc 0 else if less t s then pos 1 else pos 0

unfoldable pub compare_floats : F64 → F64 → ℤ
unfolding less_f64
compare_floats a b = if less_f64 a b then negsuc 0 else if less_f64 b a then pos 1 else pos 0

abbrev pub compare_by : Option Bytes → Option Bytes → ℤ → ℤ
compare_by (some s) (some t) i = compare_texts s t
compare_by (some _) none i = i
compare_by none _ i = i

module _ (c : Strconv) where
  open c use {parse_float, format_float, print_float}

  -- unwrap
  unfoldable pub unwrap : Value → Value
  unfolding at_key
  unwrap (object m) = zero_of (at_key (codes "S") m) text (
      zero_of (at_key (codes "N") m) (λ n. num (parse_float n).0)
        (bool_of (at_key (codes "BOOL") m) (object m)))
  unwrap v = v

  -- fmt.Sprint
  unfoldable mutual
    unfolding place_member colon_pairs

    pub sprint : Value → Bytes
    sprint null = codes "<nil>"
    sprint (text s) = s
    sprint (num f) = print_float f
    sprint (bool true) = codes "true"
    sprint (bool false) = codes "false"
    sprint (list vs) = codes "[" ++ (join_with (codes " ") (sprint_values vs) ++ codes "]")
    sprint (object m) =
        codes "map[" ++ (join_with (codes " ") (colon_pairs (sprint_members m)) ++ codes "]")

    pub sprint_values : Values → List Bytes
    sprint_values no_values = []
    sprint_values (value v vs) = sprint v ∷ sprint_values vs

    pub sprint_members : Members → List (Bytes × Bytes)
    sprint_members no_members = []
    sprint_members (member k v m) = place_member (k, sprint v) (sprint_members m)

  -- toAttr
  unfoldable mutual
    pub to_attr : Value → Value
    to_attr (text s) = one_member (codes "S") (text s)
    to_attr (num f) = one_member (codes "N") (text (format_float f))
    to_attr (bool b) = one_member (codes "BOOL") (bool b)
    to_attr (list vs) = one_member (codes "L") (list (to_attrs vs))
    to_attr null = null
    to_attr (object m) = object m

    pub to_attrs : Values → Values
    to_attrs no_values = no_values
    to_attrs (value v vs) = value (to_attr v) (to_attrs vs)

  -- toFloat's number, whether it is one or not.
  unfoldable pub to_float : Value → F64
  to_float (num f) = f
  to_float (text s) = (parse_float s).0
  to_float _ = zero_f64

  -- compare
  unfoldable pub compare_values : Value → Value → ℤ
  unfolding to_float compare_texts compare_floats
  compare_values a b = compare_by (as_text a) (as_text b) (compare_floats (to_float a) (to_float b))

list_at : Option Value → Option (List Value)
unfolding to_list
list_at (some (list vs)) = some (to_list vs)
list_at _ = none

-- asList
unfoldable pub as_list : Value → List Value
unfolding list_at at_key to_list
as_list (object m) = elim (list_at (at_key (codes "L") m)) [
  | some l ↦ l
  | none ↦ elim (list_at (at_key (codes "SS") m)) [ some l ↦ l | none ↦ object m ∷ [] ]
]
as_list (list vs) = to_list vs
as_list null = []
as_list (text s) = text s ∷ []
as_list (num f) = num f ∷ []
as_list (bool b) = bool b ∷ []

abbrev pub type_names : List Bytes
type_names =
    codes "S"
    ∷ codes "N"
    ∷ codes "B"
    ∷ codes "BOOL"
    ∷ codes "NULL"
    ∷ codes "M"
    ∷ codes "L"
    ∷ codes "SS"
    ∷ codes "NS"
    ∷ codes "BS"
    ∷ []

first_key : List Bytes → Members → Bytes
unfolding at_key
first_key [] m = []
first_key (k ∷ ks) m = elim (at_key k m) [ some _ ↦ k | none ↦ first_key ks m ]

-- attrType
unfoldable pub attr_type : Value → Bytes
unfolding first_key
attr_type (object m) = first_key type_names m
attr_type _ = []
