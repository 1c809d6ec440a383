-- ===== src/Common/Lists.antt =====
-- Lists over the native numbers, under the library's names.
use Prim.Native.Nat.{ℕ, zero, suc, ◌+◌, ◌-◌, ◌≤◌, min}
use mathlib.Core.Path.{◌≡◌, refl, ap}
use mathlib.Core.Bool.{Bool}
use mathlib.Core.Option.{Option, none, some}
use mathlib.Core.List.{List, [], ◌∷◌, ◌++◌}
use native.Mathlib.Omega.{arith}
use mirror_cloud.Common.Tests.{if◌then◌else◌}

module _ {ℓ} {A : Type ℓ} where
  abbrev pub length : List A → ℕ
  length [] = 0
  length (_ ∷ rest) = suc (length rest)

  abbrev pub get_elem? : List A → ℕ → Option A
  get_elem? [] _ = none
  get_elem? (a ∷ _) zero = some a
  get_elem? (_ ∷ rest) (suc k) = get_elem? rest k

  abbrev pub take : ℕ → List A → List A
  take zero _ = []
  take (suc k) [] = []
  take (suc k) (a ∷ rest) = a ∷ take k rest

  abbrev pub drop : ℕ → List A → List A
  drop zero rest = rest
  drop (suc k) [] = []
  drop (suc k) (_ ∷ rest) = drop k rest

  -- The elements that pass a Boolean test, in order.
  abbrev pub keep_if : (A → Bool) → List A → List A
  keep_if p [] = []
  keep_if p (a ∷ rest) = let kept = keep_if p rest in if p a then a ∷ kept else kept

  -- Every element satisfies the predicate.
  abbrev pub All {κ} : (A → Type κ) → List A → Type κ
  All P [] = Unit
  All P (a ∷ rest) = P a × All P rest

  pub length-append : (xs ys : List A) → length (xs ++ ys) ≡ length xs + length ys
  length-append [] ys = omega arith
  length-append (_ ∷ xs) ys = omega (arith, length-append xs ys)

  pub take-append_length : (xs ys : List A) → take (length xs) (xs ++ ys) ≡ xs
  take-append_length [] ys = refl
  take-append_length (a ∷ xs) ys = ap (λ l. a ∷ l) (take-append_length xs ys)

  pub drop-append_length : (xs ys : List A) → drop (length xs) (xs ++ ys) ≡ ys
  drop-append_length [] ys = refl
  drop-append_length (_ ∷ xs) ys = drop-append_length xs ys

  pub length-drop : (k : ℕ) (xs : List A) → length (drop k xs) ≡ length xs - k
  length-drop zero xs = omega arith
  length-drop (suc k) [] = omega arith
  length-drop (suc k) (_ ∷ xs) = omega (arith, length-drop k xs)

  pub length-take : (k : ℕ) (xs : List A) → length (take k xs) ≡ min k (length xs)
  length-take zero xs = omega arith
  length-take (suc k) [] = omega arith
  length-take (suc k) (_ ∷ xs) = omega (arith, length-take k xs)

  pub length-keep_if : (p : A → Bool) (xs : List A) → length (keep_if p xs) ≤ length xs
  length-keep_if p [] = omega arith
  length-keep_if p (a ∷ xs) = ground (arith, length-keep_if p xs)

  pub take-append-drop : (k : ℕ) (xs : List A) → take k xs ++ drop k xs ≡ xs
  take-append-drop zero xs = refl
  take-append-drop (suc k) [] = refl
  take-append-drop (suc k) (a ∷ xs) = ap (λ l. a ∷ l) (take-append-drop k xs)
