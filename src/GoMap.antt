-- ===== src/GoMap.antt =====
-- Go's map[string]V: an association list.
pub mod Keys
use mirror_cloud.Common.{
  ◌≡◌, ◌≤◌, ◌<◌, refl, true, List, [], ◌∷◌, length, is_some, map_option, Option, none, some,
  if◌then◌else◌, arith,
}
use mirror_cloud.Bytes.{Bytes, same, same_iff}

abbrev pub GoMap {ℓ} : Type ℓ → Type ℓ
GoMap V = List (Bytes × V)

module _ {ℓ} {V : Type ℓ} where
  -- v, ok := m[k]
  unfoldable pub lookup : Bytes → GoMap V → Option V
  lookup k [] = none
  lookup k ((j, v) ∷ m) = if same j k then some v else lookup k m

  -- m[k] = v
  unfoldable pub insert : Bytes → V → GoMap V → GoMap V
  insert k v [] = (k, v) ∷ []
  insert k v ((j, w) ∷ m) = if same j k then (k, v) ∷ m else (j, w) ∷ insert k v m

  -- delete(m, k)
  unfoldable pub remove : Bytes → GoMap V → GoMap V
  remove k [] = []
  remove k ((j, w) ∷ m) = let rest = remove k m in if same j k then rest else (j, w) ∷ rest

  pub lookup-insert :
      (k j : Bytes) (v : V) (m : GoMap V)
      → lookup j (insert k v m) ≡ (if same k j then some v else lookup j m)
  unfolding lookup insert
  lookup-insert k j v [] = refl
  lookup-insert k j v ((i, w) ∷ m) =
      ground (arith, same_iff k j, same_iff i k, same_iff i j, lookup-insert k j v m)

  pub lookup-remove :
      (k j : Bytes) (m : GoMap V) → lookup j (remove k m) ≡ (if same k j then none else lookup j m)
  unfolding lookup remove
  lookup-remove k j [] = ground arith
  lookup-remove k j ((i, w) ∷ m) =
      ground (arith, same_iff k j, same_iff i k, same_iff i j, lookup-remove k j m)

  pub remove-nil : (k : Bytes) → remove k [] ≡ []
  unfolding remove
  remove-nil k = refl

module _ {ℓ κ} {V : Type ℓ} {W : Type κ} (f : V → W) where
  unfoldable pub map_values : GoMap V → GoMap W
  map_values [] = []
  map_values ((k, v) ∷ m) = (k, f v) ∷ map_values m

  pub lookup-map_values :
      (k : Bytes) (m : GoMap V) → lookup k (map_values m) ≡ map_option f (lookup k m)
  unfolding lookup map_values
  lookup-map_values k [] = refl
  lookup-map_values k ((j, v) ∷ m) = ground (arith, lookup-map_values k m)

module _ {ℓ} {V : Type ℓ} where
  length-remove_le : (k : Bytes) (m : GoMap V) → length (remove k m) ≤ length m
  unfolding remove
  length-remove_le k [] = omega arith
  length-remove_le k ((j, v) ∷ m) = ground (arith, length-remove_le k m)

  -- Removing a key that is there makes the map smaller.
  pub length-remove :
      (k : Bytes) (m : GoMap V) → is_some (lookup k m) ≡ true → length (remove k m) < length m
  unfolding remove lookup
  length-remove k [] h = cc
  length-remove k ((j, v) ∷ m) h = ground (arith, length-remove_le k m, length-remove k m)

  pub lookup-nil : (k : Bytes) → lookup {V = V} k [] ≡ none
  unfolding lookup
  lookup-nil k = refl
