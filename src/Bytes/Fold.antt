-- ===== src/Bytes/Fold.antt =====
-- strings.ToLower, EqualFold, HasSuffix, TrimSuffix and Index, for ASCII text.
use mirror_cloud.Common.{
  ℕ, ◌+◌, ◌-◌, Bool, ◌&&◌, [], ◌∷◌, Option, none, some, leb, ◌==◌, take, drop, length, map,
  if◌then◌else◌,
}
use mirror_cloud.Bytes.{Bytes, same, has_prefix}

abbrev pub lower_byte : ℕ → ℕ
lower_byte c = if leb 65 c && leb c 90 then c + 32 else c

unfoldable pub to_lower : Bytes → Bytes
to_lower s = map lower_byte s

unfoldable pub equal_fold : Bytes → Bytes → Bool
unfolding to_lower
equal_fold s t = same (to_lower s) (to_lower t)

-- strings.HasSuffix(s, p), with the suffix first.
unfoldable pub has_suffix : Bytes → Bytes → Bool
has_suffix p s = leb (length p) (length s) && same (drop (length s - length p) s) p

unfoldable pub trim_suffix : Bytes → Bytes → Bytes
unfolding has_suffix
trim_suffix p s = if has_suffix p s then take (length s - length p) s else s

-- What follows the first p in the text.
unfoldable pub after_first : Bytes → Bytes → Option Bytes
after_first p [] = if has_prefix p [] then some (drop (length p) []) else none
after_first p (c ∷ s) =
    let further = after_first p s in
    if has_prefix p (c ∷ s) then some (drop (length p) (c ∷ s)) else further

-- What follows the last c in the text, if there is one.
unfoldable pub after_last : ℕ → Bytes → Option Bytes
after_last c [] = none
after_last c (a ∷ s) = elim (after_last c s) [
  | some rest ↦ some rest
  | none ↦ if a == c then some s else none
]
