-- ===== src/Bytes/Words.antt =====
-- strings.TrimSpace, Split, Fields, Join, Contains and ReplaceAll, for ASCII text.
use mathlib.Core.List.{reverse}
use mirror_cloud.Common.{
  ℕ, zero, suc, ◌-◌, Bool, ◌&&◌, ◌||◌, List, [], ◌∷◌, ◌++◌, ◌==◌, leb, length, if◌then◌else◌,
}
use mirror_cloud.Bytes.{Bytes, has_prefix, is_empty}

abbrev pub is_space : ℕ → Bool
is_space c = c == 32 || leb 9 c && leb c 13

unfoldable pub trim_left : Bytes → Bytes
trim_left [] = []
trim_left (c ∷ s) = let rest = trim_left s in if is_space c then rest else c ∷ s

unfoldable pub trim_space : Bytes → Bytes
unfolding trim_left
trim_space s = reverse (trim_left (reverse (trim_left s)))

-- strings.Split(s, ";")
unfoldable pub split : ℕ → Bytes → List Bytes
split c [] = [] ∷ []
split c (a ∷ s) = elim (split c s) [
  | [] ↦ [] ∷ []
  | p ∷ ps ↦ if a == c then [] ∷ p ∷ ps else (a ∷ p) ∷ ps
]

-- The first byte of the first piece.
abbrev pub in_first : ℕ → List Bytes → List Bytes
in_first c [] = (c ∷ []) ∷ []
in_first c (p ∷ ps) = (c ∷ p) ∷ ps

not_empty : List Bytes → List Bytes
not_empty [] = []
not_empty ([] ∷ ps) = not_empty ps
not_empty ((c ∷ p) ∷ ps) = (c ∷ p) ∷ not_empty ps

cut_spaces : Bytes → List Bytes
cut_spaces [] = [] ∷ []
cut_spaces (c ∷ s) = let ps = cut_spaces s in if is_space c then [] ∷ ps else in_first c ps

-- strings.Fields
unfoldable pub fields : Bytes → List Bytes
unfolding cut_spaces not_empty
fields s = not_empty (cut_spaces s)

-- strings.Join
unfoldable pub join_with : Bytes → List Bytes → Bytes
join_with sep [] = []
join_with sep (p ∷ []) = p
join_with sep (p ∷ q ∷ ps) = p ++ (sep ++ join_with sep (q ∷ ps))

-- strings.Contains(s, p), with the part first.
unfoldable pub contains : Bytes → Bytes → Bool
unfolding has_prefix
contains p [] = has_prefix p []
contains p (c ∷ s) = has_prefix p (c ∷ s) || contains p s

unfoldable pub replace_from : Bytes → Bytes → ℕ → Bytes → Bytes
unfolding has_prefix
replace_from old new skip [] = []
replace_from old new (suc skip) (c ∷ s) = replace_from old new skip s
replace_from old new zero (c ∷ s) =
    let hit = has_prefix old (c ∷ s) in
    let rest = replace_from old new (if hit then length old - 1 else 0) s in
    if hit then new ++ rest else c ∷ rest

pub between_bytes : Bytes → Bytes → Bytes
between_bytes new [] = new
between_bytes new (c ∷ s) = new ++ (c ∷ between_bytes new s)

-- strings.ReplaceAll
unfoldable pub replace_all : Bytes → Bytes → Bytes → Bytes
unfolding replace_from between_bytes
replace_all s old new = if is_empty old then between_bytes new s else replace_from old new 0 s
