-- ===== src/Bytes/Sort/Extent.antt =====
-- A strictly ascending list is determined by what is in it, and is cut by a bound where a prefix of
-- it ends.
use mirror_cloud.Common.{
  ℕ, zero, suc, ◌≡◌, refl, sym, ap, subst, Bool, true, false, List, [], ◌∷◌, ◌&&◌, arith, keep_if,
  take, drop, Bool-cases, inl, inr, Option, none, some,
}
use mirror_cloud.Bytes.{Bytes, same, same_iff, same_self, less}
use mirror_cloud.Bytes.Order.{less_irrefl, less_asymm, less_total}
use mirror_cloud.Bytes.Sort.{has, IsDistinct, Above, IsAscending}

pub less_of_has : (k a : Bytes) (js : List Bytes) → Above k js → has a js ≡ true → less k a ≡ true
unfolding has
less_of_has k a [] t h = cc
less_of_has k a (j ∷ js) t h = ground (arith, same_iff j a, less_of_has k a js t.1)

not-has-head : (k : Bytes) (js : List Bytes) → Above k js → has k js ≡ false
not-has-head k js t = elim (Bool-cases (has k js)) [
  | inl e ↦ cc (less_irrefl k, less_of_has k k js t e)
  | inr e ↦ e
]

abbrev pub SameMembers : List Bytes → List Bytes → Type 0
SameMembers xs ys = (k : Bytes) → has k xs ≡ has k ys

heads-not-less :
    (x y : Bytes) (xs ys : List Bytes)
    → Above y ys
    → has x (y ∷ ys) ≡ has x (x ∷ xs)
    → less x y ≡ false
unfolding has
heads-not-less x y xs ys t e = elim (Bool-cases (less x y)) [
  | inr l ↦ l
  | inl l ↦ ground (
    arith,
    same_iff y x,
    same_self x,
    less_irrefl x,
    less_asymm x y l,
    less_of_has y x ys t,
    Bool-cases (has x ys),
  )
]

tails-SameMembers :
    (x y : Bytes) (xs ys : List Bytes)
    → x ≡ y
    → Above x xs
    → Above y ys
    → SameMembers (x ∷ xs) (y ∷ ys)
    → SameMembers xs ys
unfolding has
tails-SameMembers x y xs ys e s t h k = elim (Bool-cases (same x k)) [
  | inl m ↦ ground (arith, same_iff x k, not-has-head x xs s, not-has-head y ys t)
  | inr m ↦ ground (arith, h k, same_iff x k, same_iff y k)
]

-- Strictly ascending lists with the same members are equal.
pub ascending_ext :
    (xs ys : List Bytes) → IsAscending xs → IsAscending ys → SameMembers xs ys → xs ≡ ys
ascending_ext [] [] a b h = refl
ascending_ext [] (y ∷ ys) a b h = unfold has in ground (arith, h y, same_self y)
ascending_ext (x ∷ xs) [] a b h = unfold has in ground (arith, h x, same_self x)
ascending_ext (x ∷ xs) (y ∷ ys) a b h =
    let e : x ≡ y =
      less_total x y (heads-not-less x y xs ys b.0 (sym (h x)))
        (heads-not-less y x ys xs a.0 (h y)) in
    cc (e, ascending_ext xs ys a.1 b.1 (tails-SameMembers x y xs ys e a.0 b.0 h))

module _ (p : Bytes → Bool) where
  pub has-keep_if : (k : Bytes) (xs : List Bytes) → has k (keep_if p xs) ≡ (p k && has k xs)
  unfolding has
  has-keep_if k [] = ground arith
  has-keep_if k (x ∷ xs) = ground (arith, has-keep_if k xs, same_iff x k, λ (e : x ≡ k). ap p e)

  pub keep_if-IsDistinct : (xs : List Bytes) → IsDistinct xs → IsDistinct (keep_if p xs)
  keep_if-IsDistinct [] d = tt
  keep_if-IsDistinct (x ∷ xs) d = elim (Bool-cases (p x)) [
    | inl e ↦ rw e (ground (arith, has-keep_if x xs), keep_if-IsDistinct xs d.1)
    | inr e ↦ rw e (keep_if-IsDistinct xs d.1)
  ]

  Above-keep_if : (k : Bytes) (xs : List Bytes) → Above k xs → Above k (keep_if p xs)
  Above-keep_if k [] t = tt
  Above-keep_if k (x ∷ xs) t = elim (Bool-cases (p x)) [
    | inl e ↦ rw e (t.0, Above-keep_if k xs t.1)
    | inr e ↦ rw e (Above-keep_if k xs t.1)
  ]

  pub keep_if-IsAscending : (xs : List Bytes) → IsAscending xs → IsAscending (keep_if p xs)
  keep_if-IsAscending [] a = tt
  keep_if-IsAscending (x ∷ xs) a = elim (Bool-cases (p x)) [
    | inl e ↦ rw e (Above-keep_if x xs a.0, keep_if-IsAscending xs a.1)
    | inr e ↦ rw e (keep_if-IsAscending xs a.1)
  ]

keep_if-Above : (k : Bytes) (xs : List Bytes) → Above k xs → keep_if (less k) xs ≡ xs
keep_if-Above k [] t = refl
keep_if-Above k (x ∷ xs) t = rw t.0 (ap (λ l. x ∷ l) (keep_if-Above k xs t.1))

-- The last element.
abbrev pub last? : List Bytes → Option Bytes
last? [] = none
last? (x ∷ []) = some x
last? (x ∷ y ∷ xs) = last? (y ∷ xs)

pub has-last? : (k : Bytes) (n : ℕ) (xs : List Bytes) → last? (take n xs) ≡ some k → has k xs ≡ true
unfolding has
has-last? k zero xs h = cc
has-last? k (suc n) [] h = cc
has-last? k (suc zero) (x ∷ xs) h = ground (arith, same_iff x k)
has-last? k (suc (suc n)) (x ∷ []) h = ground (arith, same_iff x k)
has-last? k (suc (suc n)) (x ∷ y ∷ xs) h = ground (arith, has-last? k (suc n) (y ∷ xs) h)

-- What lies beyond the last of the first `n` elements is what is left after them.
pub keep_if-eq-drop :
    (k : Bytes) (n : ℕ) (xs : List Bytes)
    → IsAscending xs
    → last? (take n xs) ≡ some k
    → keep_if (less k) xs ≡ drop n xs
keep_if-eq-drop k zero xs a h = cc
keep_if-eq-drop k (suc n) [] a h = cc
keep_if-eq-drop k (suc zero) (x ∷ xs) a h =
    let e : x ≡ k = ground arith in
    subst (λ j. keep_if (less j) (x ∷ xs) ≡ xs) e (rw (less_irrefl x) (keep_if-Above x xs a.0))
keep_if-eq-drop k (suc (suc n)) (x ∷ []) a h =
    let e : x ≡ k = ground arith in rw (← e) (rw (less_irrefl x))
keep_if-eq-drop k (suc (suc n)) (x ∷ y ∷ xs) a h =
    rw (less_asymm x k (less_of_has x k (y ∷ xs) a.0 (has-last? k (suc n) (y ∷ xs) h)))
      (keep_if-eq-drop k (suc n) (y ∷ xs) a.1 h)
