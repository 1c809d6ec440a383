-- ===== src/Common/Tests.antt =====
-- Boolean tests over the native numbers, the conditional, and case splits that keep an equation.
use Prim.Native.Nat.{ℕ, ◌≤◌, ◌<◌, compare, Ordering}
use mathlib.Core.Path.{◌≡◌, refl}
use mathlib.Core.Logic.{◌⊎◌, inl, inr}
use mathlib.Core.Bool.{Bool, true, false}
use mathlib.Core.Option.{Option, none, some}
use native.Mathlib.Omega.{arith}

abbrev pub ltb : ℕ → ℕ → Bool
ltb m n = elim (compare m n) [ Ordering.lt ↦ true | _ ↦ false ]

abbrev pub leb : ℕ → ℕ → Bool
leb m n = elim (compare m n) [ Ordering.gt ↦ false | _ ↦ true ]

infix 50 ◌==◌
abbrev pub ◌==◌ : ℕ → ℕ → Bool
m == n = elim (compare m n) [ Ordering.eq ↦ true | _ ↦ false ]

infix 1 if◌then◌else◌
abbrev pub if◌then◌else◌ {ℓ} : {A : Type ℓ} → Bool → A → A → A
if true then a else b = a
if false then a else b = b

pub ltb-lt : (m n : ℕ) → ltb m n ≡ true → m < n
ltb-lt m n h = ground arith

pub ltb-ge : (m n : ℕ) → ltb m n ≡ false → n ≤ m
ltb-ge m n h = ground arith

pub leb-le : (m n : ℕ) → leb m n ≡ true → m ≤ n
leb-le m n h = ground arith

pub leb-gt : (m n : ℕ) → leb m n ≡ false → n < m
leb-gt m n h = ground arith

pub lt-ltb : (m n : ℕ) → m < n → ltb m n ≡ true
lt-ltb m n h = ground arith

pub le-leb : (m n : ℕ) → m ≤ n → leb m n ≡ true
le-leb m n h = ground arith

pub Bool-cases : (b : Bool) → (b ≡ true) ⊎ (b ≡ false)
Bool-cases true = inl refl
Bool-cases false = inr refl

pub Option-cases {ℓ} : {A : Type ℓ} (o : Option A) → (o ≡ none) ⊎ ((a : A) × (o ≡ some a))
Option-cases none = inl refl
Option-cases (some a) = inr (a, refl)

abbrev pub is_some {ℓ} : {A : Type ℓ} → Option A → Bool
is_some none = false
is_some (some _) = true

abbrev pub or_else {ℓ} : {A : Type ℓ} → A → Option A → A
or_else d none = d
or_else d (some a) = a

pub ruleset tests = (arith, ltb-lt, ltb-ge, leb-le, leb-gt, lt-ltb, le-leb)

abbrev pub map_option {ℓ κ} : {A : Type ℓ} {B : Type κ} → (A → B) → Option A → Option B
map_option f none = none
map_option f (some a) = some (f a)
