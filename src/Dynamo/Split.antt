-- ===== src/Dynamo/Split.antt =====
-- How an expression's text is taken apart outside parentheses
-- (internal/services/aws/dynamodb/expr/expr.go).
pub mod Lengths
use mirror_cloud.Common.{
  ℕ, zero, suc, ◌-◌, Bool, true, false, not, ◌&&◌, ◌||◌, List, [], ◌∷◌, ◌++◌, Option, none, some,
  map, drop, length, take, ◌==◌, if◌then◌else◌,
}
use mirror_cloud.Common.Int.{ℤ, pos, up, down, ◌+ℤ◌, ◌-ℤ◌}
use mirror_cloud.Bytes.{Bytes, codes, has_prefix, is_empty}
use mirror_cloud.Bytes.Words.{trim_space, in_first}

-- The depth of parentheses after a byte.
abbrev pub depth_after : ℕ → ℤ → ℤ
depth_after c depth =
    if c == b'(' then depth +ℤ pos 1 else if c == b')' then depth -ℤ pos 1 else depth

abbrev pub at_top : ℤ → Bool
at_top depth = up depth == down depth

abbrev pub after_byte : ℕ → Option (Bytes × Bytes) → Option (Bytes × Bytes)
after_byte c none = none
after_byte c (some (before, rest)) = some (c ∷ before, rest)

-- indexTop, as the text before the operator and the text after it.
unfoldable pub index_top : Bytes → ℤ → Bytes → Option (Bytes × Bytes)
index_top op depth [] = none
index_top op depth (c ∷ s) =
    let d = depth_after c depth in
    let further = index_top op d s in
    if at_top d && has_prefix op (c ∷ s)
    then some ([], drop (length op) (c ∷ s))
    else after_byte c further

-- The loop of unwrapParens: whether no parenthesis but the last byte closes the first.
unfoldable pub closes_last : ℤ → Bytes → Bool
closes_last depth [] = at_top depth
closes_last depth (c ∷ s) =
    let d = depth_after c depth in
    let further = closes_last d s in
    if c == b')' && (at_top d && not (is_empty s)) then false else further

-- The text without its last byte, if that is a closing parenthesis.
unfoldable pub before_close : Bytes → Option Bytes
before_close [] = none
before_close (c ∷ []) = if c == b')' then some [] else none
before_close (c ∷ d ∷ s) = elim (before_close (d ∷ s)) [ none ↦ none | some p ↦ some (c ∷ p) ]

-- unwrapParens at a trimmed text: what stands inside, if the text is parenthesised.
unfoldable pub unwrap_trimmed : Bytes → Option Bytes
unfolding closes_last before_close
unwrap_trimmed [] = none
unwrap_trimmed (c ∷ s) =
    if c == b'(' && closes_last (pos 0) (c ∷ s)
    then elim (before_close s) [ none ↦ none | some inner ↦ some (trim_space inner) ]
    else none

-- The loop of parse that takes parentheses off.
unfoldable pub strip_parens : ℕ → Bytes → Bytes
unfolding unwrap_trimmed
strip_parens zero s = s
strip_parens (suc fuel) s = elim (unwrap_trimmed (trim_space s)) [
  | none ↦ trim_space s
  | some inner ↦ strip_parens fuel inner
]

-- The pieces between the commas outside parentheses.
unfoldable pub comma_pieces : ℤ → Bytes → List Bytes
comma_pieces depth [] = [] ∷ []
comma_pieces depth (c ∷ s) =
    let pieces = comma_pieces (depth_after c depth) s in
    if c == b',' && at_top depth then [] ∷ pieces else in_first c pieces

-- splitArgs
unfoldable pub split_args : Bytes → List Bytes
unfolding comma_pieces trim_space
split_args s = map trim_space (comma_pieces (pos 0) s)

abbrev pub begins_clause : Bytes → Bool
begins_clause s =
    has_prefix (codes " SET ") s
    || (has_prefix (codes " REMOVE ") s
        || (has_prefix (codes " ADD ") s || has_prefix (codes " DELETE ") s))

clauses_from : ℤ → Bytes → List Bytes
clauses_from depth [] = [] ∷ []
clauses_from depth (c ∷ s) =
    let d = depth_after c depth in
    let pieces = clauses_from d s in
    if at_top d && begins_clause (c ∷ s) then [] ∷ pieces else in_first c pieces

-- splitTop
unfoldable pub split_top : Bytes → List Bytes
unfolding clauses_from
split_top s = clauses_from (pos 0) s
