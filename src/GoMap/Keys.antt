-- ===== src/GoMap/Keys.antt =====
-- The keys of a map: each once.
use mirror_cloud.Common.{
  ◌≡◌, refl, false, List, [], ◌∷◌, ◌||◌, arith, is_some, Bool-cases, inl, inr,
}
use mirror_cloud.Bytes.{Bytes, same, same_iff}
use mirror_cloud.Bytes.Sort.{has, IsDistinct}
use mirror_cloud.GoMap.{GoMap, lookup, insert, remove}

module _ {ℓ} {V : Type ℓ} where
  -- `for k := range m`, in the order of the representation.
  abbrev pub keys : GoMap V → List Bytes
  keys [] = []
  keys ((k, _) ∷ m) = k ∷ keys m

  pub has-keys : (k : Bytes) (m : GoMap V) → has k (keys m) ≡ is_some (lookup k m)
  unfolding has lookup
  has-keys k [] = refl
  has-keys k ((j, v) ∷ m) = ground (arith, has-keys k m)

  has-keys-insert :
      (k j : Bytes) (v : V) (m : GoMap V)
      → has j (keys (insert k v m)) ≡ (same k j || has j (keys m))
  unfolding has insert
  has-keys-insert k j v [] = refl
  has-keys-insert k j v ((i, w) ∷ m) =
      ground (arith, has-keys-insert k j v m, same_iff i k, same_iff i j, same_iff k j)

  has-keys-remove :
      (k j : Bytes) (m : GoMap V) → has j (keys m) ≡ false → has j (keys (remove k m)) ≡ false
  unfolding has remove
  has-keys-remove k j [] h = refl
  has-keys-remove k j ((i, w) ∷ m) h = ground (arith, has-keys-remove k j m)

  pub insert-IsDistinct :
      (k : Bytes) (v : V) (m : GoMap V) → IsDistinct (keys m) → IsDistinct (keys (insert k v m))
  unfolding insert has
  insert-IsDistinct k v [] d = (refl, tt)
  insert-IsDistinct k v ((i, w) ∷ m) d = elim (Bool-cases (same i k)) [
    | inl e ↦ rw e (ground (arith, same_iff i k), d.1)
    | inr e ↦ rw e (
      ground (arith, has-keys-insert k i v m, same_iff i k, same_iff k i),
      insert-IsDistinct k v m d.1,
    )
  ]

  pub remove-IsDistinct :
      (k : Bytes) (m : GoMap V) → IsDistinct (keys m) → IsDistinct (keys (remove k m))
  unfolding remove
  remove-IsDistinct k [] d = tt
  remove-IsDistinct k ((i, w) ∷ m) d = elim (Bool-cases (same i k)) [
    | inl e ↦ rw e (remove-IsDistinct k m d.1)
    | inr e ↦ rw e (has-keys-remove k i m d.0, remove-IsDistinct k m d.1)
  ]
