-- ===== src/Json.antt =====
-- A decoded JSON value, Go's `any`: what a type assertion on it answers.
use mirror_cloud.Common.{ℕ, List, [], ◌∷◌, Option, none, some, if◌then◌else◌}
use mirror_cloud.Bytes.{Bytes, same}

-- `other` stands for null, the Booleans and the numbers.
mutual
  pub data Json : Type 0 where
    text : Bytes → Json
    list : Items → Json
    object : Members → Json
    other : ℕ → Json

  pub data Items : Type 0 where
    no_items : Items
    item : Json → Items → Items

  pub data Members : Type 0 where
    no_members : Members
    member : Bytes → Json → Members → Members

-- v, ok := m[k]
unfoldable pub at_key : Bytes → Members → Option Json
at_key k no_members = none
at_key k (member j v m) = if same j k then some v else at_key k m

-- m, _ := v.(map[string]any)
unfoldable pub as_object : Option Json → Members
as_object (some (object m)) = m
as_object _ = no_members

-- s, _ := v.(string)
unfoldable pub as_text : Option Json → Bytes
as_text (some (text s)) = s
as_text _ = []

-- The strings of a []any.
unfoldable pub texts_of : Items → List Bytes
texts_of no_items = []
texts_of (item (text s) l) = s ∷ texts_of l
texts_of (item (list _) l) = texts_of l
texts_of (item (object _) l) = texts_of l
texts_of (item (other _) l) = texts_of l

-- The objects of a []any.
unfoldable pub objects_of : Items → List Members
objects_of no_items = []
objects_of (item (object m) l) = m ∷ objects_of l
objects_of (item (text _) l) = objects_of l
objects_of (item (list _) l) = objects_of l
objects_of (item (other _) l) = objects_of l
