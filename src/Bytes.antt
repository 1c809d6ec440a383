-- ===== src/Bytes.antt =====
-- Go strings and byte slices: lists of byte values, with the operations of Go's `strings`,
-- `bytes` and `sort` packages that the program calls.
pub mod Fold
pub mod Order
pub mod Parts
pub mod Sort
pub mod Words
use Prim.Native.Nat.{compare, Ordering}
use Prim.Native.Char.{code}
use Prim.Native.String.{String}
use mirror_cloud.Common.{
  ℕ, ◌≡◌, ◌↔◌, refl, ap, Bool, true, false, not, List, [], ◌∷◌, ◌++◌, ◌&&◌, ◌==◌, ◌||◌, arith, drop,
  length, if◌then◌else◌,
}

abbrev pub Bytes : Type 0
Bytes = List ℕ

-- The bytes of an ASCII literal.
abbrev pub codes : String → Bytes
codes String.[] = []
codes (String.◌∷◌ c s) = code c ∷ codes s

-- Go's `==` on strings.
unfoldable pub same : Bytes → Bytes → Bool
same [] [] = true
same [] (_ ∷ _) = false
same (_ ∷ _) [] = false
same (a ∷ s) (b ∷ t) = a == b && same s t

-- Go's `<` on strings: lexicographic, by bytes.
unfoldable pub less : Bytes → Bytes → Bool
less [] [] = false
less [] (_ ∷ _) = true
less (_ ∷ _) [] = false
less (a ∷ s) (b ∷ t) =
    let rest = less s t in
    elim (compare a b) [ Ordering.lt ↦ true | Ordering.eq ↦ rest | Ordering.gt ↦ false ]

-- strings.HasPrefix(s, p), with the prefix first.
unfoldable pub has_prefix : Bytes → Bytes → Bool
has_prefix [] s = true
has_prefix (_ ∷ _) [] = false
has_prefix (a ∷ s) (b ∷ t) = a == b && has_prefix s t

pub same_iff : (s t : Bytes) → (same s t ≡ true) ↔ (s ≡ t)
unfolding same
same_iff [] [] = ((λ _. refl), (λ _. refl))
same_iff [] (b ∷ t) = ((λ h. cc), (λ h. cc))
same_iff (a ∷ s) [] = ((λ h. cc), (λ h. cc))
same_iff (a ∷ s) (b ∷ t) = ground (arith, same_iff s t)

pub same_self : (s : Bytes) → same s s ≡ true
same_self s = (same_iff s s).1 refl

-- strings.TrimPrefix(s, p), with the prefix first.
unfoldable pub trim_prefix : Bytes → Bytes → Bytes
unfolding has_prefix
trim_prefix p s = if has_prefix p s then drop (length p) s else s

abbrev pub is_empty : Bytes → Bool
is_empty [] = true
is_empty (_ ∷ _) = false

-- strings.Contains(s, c) at one byte.
unfoldable pub has_byte : ℕ → Bytes → Bool
has_byte c [] = false
has_byte c (a ∷ s) = a == c || has_byte c s

-- strings.Cut(s, c) at one byte: before, after, found.
unfoldable pub cut : ℕ → Bytes → Bytes × Bytes × Bool
cut c [] = ([], [], false)
cut c (a ∷ s) = let rest = cut c s in if a == c then ([], s, true) else (a ∷ rest.0, rest.1, rest.2)

-- seen[s], for a set of strings.
unfoldable pub is_among : Bytes → List Bytes → Bool
unfolding same
is_among k [] = false
is_among k (j ∷ ks) = same j k || is_among k ks

-- No key stands twice, nor is one of those given.
abbrev pub is_fresh : List Bytes → List Bytes → Bool
is_fresh seen [] = true
is_fresh seen (k ∷ ks) = not (is_among k seen) && is_fresh (k ∷ seen) ks
