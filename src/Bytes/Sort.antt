-- ===== src/Bytes/Sort.antt =====
-- sort.Strings, and lists of strings in strictly ascending order.
pub mod Extent
pub mod Front
use mirror_cloud.Common.{
  ◌≡◌, refl, Bool, true, false, List, [], ◌∷◌, ◌||◌, arith, All, if◌then◌else◌, Bool-cases, inl,
  inr, ◌∙◌,
}
use mirror_cloud.Bytes.{Bytes, same, same_iff, less}
use mirror_cloud.Bytes.Order.{less_trans, less_total}

place : Bytes → List Bytes → List Bytes
place k [] = k ∷ []
place k (j ∷ js) = if less j k then j ∷ place k js else k ∷ j ∷ js

-- sort.Strings
unfoldable pub sort_strings : List Bytes → List Bytes
unfolding place
sort_strings [] = []
sort_strings (k ∷ ks) = place k (sort_strings ks)

-- Whether a string is in the list.
unfoldable pub has : Bytes → List Bytes → Bool
has k [] = false
has k (j ∷ js) = same j k || has k js

abbrev pub IsDistinct : List Bytes → Type 0
IsDistinct [] = Unit
IsDistinct (k ∷ ks) = (has k ks ≡ false) × IsDistinct ks

abbrev pub Above : Bytes → List Bytes → Type 0
Above k js = All (λ j. less k j ≡ true) js

-- Strictly ascending: sorted, with no string twice.
abbrev pub IsAscending : List Bytes → Type 0
IsAscending [] = Unit
IsAscending (k ∷ ks) = Above k ks × IsAscending ks

has-place : (k j : Bytes) (js : List Bytes) → has k (place j js) ≡ (same j k || has k js)
unfolding has place
has-place k j [] = refl
has-place k j (i ∷ js) = ground (arith, has-place k j js)

pub has-sort_strings : (k : Bytes) (ks : List Bytes) → has k (sort_strings ks) ≡ has k ks
unfolding has sort_strings
has-sort_strings k [] = refl
has-sort_strings k (j ∷ ks) = ground (arith, has-place k j (sort_strings ks), has-sort_strings k ks)

Above-place : (a k : Bytes) (js : List Bytes) → less a k ≡ true → Above a js → Above a (place k js)
unfolding place
Above-place a k [] h t = (h, tt)
Above-place a k (j ∷ js) h t = elim (Bool-cases (less j k)) [
  | inl e ↦ rw e (t.0, Above-place a k js h t.1)
  | inr e ↦ rw e (h, t)
]

Above-trans : (a k : Bytes) (js : List Bytes) → less a k ≡ true → Above k js → Above a js
Above-trans a k [] h t = tt
Above-trans a k (j ∷ js) h t = (less_trans a k j h t.0, Above-trans a k js h t.1)

place-IsAscending :
    (k : Bytes) (js : List Bytes) → has k js ≡ false → IsAscending js → IsAscending (place k js)
unfolding place has
place-IsAscending k [] h t = (tt, tt)
place-IsAscending k (j ∷ js) h t = elim (Bool-cases (less j k)) [
  | inl e ↦ rw e (Above-place j k js e t.0, place-IsAscending k js (ground arith) t.1)
  | inr e ↦ rw e (elim (Bool-cases (less k j)) [
    | inl l ↦ ((l, Above-trans k j js l t.0), t)
    | inr l ↦ absurd (ground (arith, same_iff j k, less_total j k e l))
  ])
]

-- Sorting distinct strings gives a strictly ascending list.
pub sort_strings-IsAscending : (ks : List Bytes) → IsDistinct ks → IsAscending (sort_strings ks)
unfolding sort_strings
sort_strings-IsAscending [] d = tt
sort_strings-IsAscending (k ∷ ks) d =
    place-IsAscending k (sort_strings ks) (has-sort_strings k ks ∙ d.0)
      (sort_strings-IsAscending ks d.1)
