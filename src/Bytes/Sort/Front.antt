-- ===== src/Bytes/Sort/Front.antt =====
-- The first elements of a strictly ascending list.
use mirror_cloud.Common.{
  ℕ, zero, suc, ◌<◌, ◌≡◌, ◌⊎◌, refl, true, false, List, [], ◌∷◌, arith, All, take, length,
  Bool-cases, inl, inr,
}
use mirror_cloud.Bytes.{Bytes, same, same_iff, same_self, less}
use mirror_cloud.Bytes.Order.{less_irrefl}
use mirror_cloud.Bytes.Sort.{has, Above, IsAscending}
use mirror_cloud.Bytes.Sort.Extent.{less_of_has}

-- Every element is below the string.
abbrev pub Below : Bytes → List Bytes → Type 0
Below k js = All (λ j. less j k ≡ true) js

pub has_of_has-take :
    (k : Bytes) (n : ℕ) (xs : List Bytes) → has k (take n xs) ≡ true → has k xs ≡ true
unfolding has
has_of_has-take k zero xs h = cc
has_of_has-take k (suc n) [] h = cc
has_of_has-take k (suc n) (x ∷ xs) h = ground (arith, has_of_has-take k n xs)

Above-take : (k : Bytes) (n : ℕ) (xs : List Bytes) → Above k xs → Above k (take n xs)
Above-take k zero xs t = tt
Above-take k (suc n) [] t = tt
Above-take k (suc n) (x ∷ xs) t = (t.0, Above-take k n xs t.1)

pub take-IsAscending : (n : ℕ) (xs : List Bytes) → IsAscending xs → IsAscending (take n xs)
take-IsAscending zero xs a = tt
take-IsAscending (suc n) [] a = tt
take-IsAscending (suc n) (x ∷ xs) a = (Above-take x n xs a.0, take-IsAscending n xs a.1)

-- An element is among the first, or all of those are below it.
pub has-take-or-Below :
    (k : Bytes) (n : ℕ) (xs : List Bytes)
    → IsAscending xs
    → has k xs ≡ true
    → (has k (take n xs) ≡ true) ⊎ Below k (take n xs)
unfolding has
has-take-or-Below k zero xs a h = inr tt
has-take-or-Below k (suc n) [] a h = cc
has-take-or-Below k (suc n) (x ∷ xs) a h = elim (Bool-cases (same x k)) [
  | inl e ↦ inl (rw e)
  | inr e ↦
      let later : has k xs ≡ true = ground arith in
      elim (has-take-or-Below k n xs a.1 later) [
        | inl i ↦ inl (rw e i)
        | inr b ↦ inr (less_of_has x k xs a.0 later, b)
      ]
]

-- Where a list is longer than its front, an element is not in the front.
pub beyond-take :
    (n : ℕ) (xs : List Bytes)
    → IsAscending xs
    → n < length xs
    → (k : Bytes) × (has k xs ≡ true) × (has k (take n xs) ≡ false)
unfolding has
beyond-take n [] a h = absurd (omega arith)
beyond-take zero (x ∷ xs) a h = (x, rw (same_self x), refl)
beyond-take (suc n) (x ∷ xs) a h =
    let (k, i, o) = beyond-take n xs a.1 (omega arith) in
    (k, ground arith, ground (arith, same_iff x k, less_irrefl x, less_of_has x k xs a.0 i))
