-- ===== src/Tags/Keys.antt =====
-- TagExprKeys of internal/bir/tagexpr.go: the tags that a condition names, found by a scan.
pub mod Steps
pub mod Fuel
pub mod Found
pub mod Enough
use mirror_cloud.Common.{
  ℕ, zero, suc, ◌+◌, ◌≤◌, ◌<◌, ◌≡◌, refl, Bool, true, false, not, ◌&&◌, ◌||◌, ◌==◌, List, [], ◌∷◌,
  Option, none, some, drop, length, length-drop, is_some, Bool-cases, inl, inr, if◌then◌else◌,
  arith,
}
use mirror_cloud.Bytes.{Bytes, codes, is_empty, is_among, is_fresh}
use mirror_cloud.Bytes.Fold.{equal_fold}
use mirror_cloud.Tags.{is_ident, skip_ws, span_ident, op_of}
use mirror_cloud.Tags.Lengths.{length-span_ident}

-- The bytes before a byte, and the text from that byte on.
unfoldable pub span_to : ℕ → Bytes → Bytes × Bytes
span_to q [] = ([], [])
span_to q (c ∷ s) =
    let further = span_to q s in if c == q then ([], c ∷ s) else (c ∷ further.0, further.1)

abbrev pub is_keyword : Bytes → Bool
unfolding equal_fold
is_keyword word =
    equal_fold word (codes "and") || (equal_fold word (codes "or") || equal_fold word (codes "not"))

-- A key found, and those found after it, by what is seen.
abbrev pub add_key : Bytes → List Bytes → (List Bytes → List Bytes) → List Bytes
add_key key seen next = elim (is_among key seen) [
  | true ↦ next seen
  | false ↦ key ∷ next (key ∷ seen)
]

-- A bare word is a key where it is no keyword and an operator follows it.
abbrev pub is_key : Bytes × Bytes → Bool
is_key (word, rest) = not (is_keyword word) && is_some (op_of (skip_ws rest))

-- What the scan does at a byte.
pub data Piece : Type 0 where
  literal_from quoted_from parameter_from word_from other_byte : Piece

abbrev pub piece_at : ℕ → Bool → Piece
piece_at c after_word =
    if c == b'\''
    then literal_from
    else if c == b'"'
    then quoted_from
    else if c == b'@'
    then parameter_from
    else if is_ident c && not after_word
    then word_from
    else other_byte

-- The loop of TagExprKeys, by whether the byte before is one of a word and the keys seen.
unfoldable pub scan_keys : ℕ → Bool → List Bytes → Bytes → List Bytes
unfolding span_to span_ident
scan_keys zero after_word seen s = []
scan_keys (suc f) after_word seen [] = []
scan_keys (suc f) after_word seen (c ∷ s) = elim (piece_at c after_word) [
  | literal_from ↦ scan_keys f false seen (drop 1 (span_to b'\'' s).1)
  | quoted_from ↦
      add_key (span_to b'"' s).0 seen (λ now. scan_keys f false now (drop 1 (span_to b'"' s).1))
  | parameter_from ↦ scan_keys f (not (is_empty (span_ident s).0)) seen (span_ident s).1
  | word_from ↦ elim (is_key (span_ident (c ∷ s))) [
    | true ↦
        add_key (span_ident (c ∷ s)).0 seen (λ now. scan_keys f true now (span_ident (c ∷ s)).1)
    | false ↦ scan_keys f true seen (span_ident (c ∷ s)).1
  ]
  | other_byte ↦ scan_keys f (is_ident c) seen s
]

-- TagExprKeys
unfoldable pub tag_expr_keys : Bytes → List Bytes
unfolding scan_keys
tag_expr_keys s = scan_keys (length s) false [] s
