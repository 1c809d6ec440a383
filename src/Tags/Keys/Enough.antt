-- ===== src/Tags/Keys/Enough.antt =====
-- The keys that TagExprKeys finds (internal/bir/tagexpr.go) are all that a condition asks for.
use mirror_cloud.Common.{
  ◌≡◌, ◌∙◌, refl, ap, true, false, not, ◌||◌, List, [], ◌∷◌, ◌++◌, Option, none, some, keep_if,
  arith,
}
use mirror_cloud.Bytes.{Bytes, same, same_iff, same_self, is_among}
use mirror_cloud.GoMap.{GoMap, lookup}
use mirror_cloud.Tags.{
  Operand, TagOp, tag, container, Expr, compare, negate, both, either, holds, value_holds,
  operand_of,
}
use mirror_cloud.Tags.Print.{print, IsQuotable}
use mirror_cloud.Tags.Keys.{tag_expr_keys}
use mirror_cloud.Tags.Keys.Found.{keys_of, first_keys, tag_expr_keys-print}

is_among-append :
    (k : Bytes) (ks ls : List Bytes) → is_among k (ks ++ ls) ≡ is_among k ks || is_among k ls
unfolding is_among
is_among-append k [] ls = refl
is_among-append k (j ∷ ks) ls = ground (arith, is_among-append k ks ls)

is_among-others :
    (k j : Bytes) (ks : List Bytes)
    → same j k ≡ false
    → is_among k (keep_if (λ l. not (same j l)) ks) ≡ is_among k ks
unfolding is_among
is_among-others k j [] h = refl
is_among-others k j (l ∷ ks) h =
    ground (arith, is_among-others k j ks h, same_iff j l, same_iff l k, same_iff j k)

is_among-first_keys : (k : Bytes) (ks : List Bytes) → is_among k (first_keys ks) ≡ is_among k ks
unfolding is_among first_keys
is_among-first_keys k [] = refl
is_among-first_keys k (j ∷ ks) =
    ground (arith, is_among-first_keys k ks, is_among-others k j (first_keys ks))

-- Two sets of tags agree on the keys of a list.
abbrev pub Agree : List Bytes → GoMap (Option Bytes) → GoMap (Option Bytes) → Type 0
Agree ks tags others = (k : Bytes) → is_among k ks ≡ true → lookup k tags ≡ lookup k others

module _ (tags others : GoMap (Option Bytes)) (name : Bytes) where
  operand_same :
      (key : Operand) (op : TagOp) (value : Bytes)
      → Agree (keys_of (compare key op value)) tags others
      → operand_of key tags name ≡ operand_of key others name
  unfolding operand_of is_among
  operand_same container op value h = refl
  operand_same (tag k) op value h =
      ap (λ (o : Option (Option Bytes)). elim o [ some (some v) ↦ some v | _ ↦ none ])
        (h k (ground (arith, same_self k)))

  holds_same : (e : Expr) → Agree (keys_of e) tags others → holds e tags name ≡ holds e others name
  unfolding holds
  holds_same (compare key op value) h = ap (value_holds op value) (operand_same key op value h)
  holds_same (negate e) h = ap not (holds_same e h)
  holds_same (both a b) h = ground (
    arith,
    holds_same a (λ k m. h k (ground (arith, is_among-append k (keys_of a) (keys_of b), m))),
    holds_same b (λ k m. h k (ground (arith, is_among-append k (keys_of a) (keys_of b), m))),
  )
  holds_same (either a b) h = ground (
    arith,
    holds_same a (λ k m. h k (ground (arith, is_among-append k (keys_of a) (keys_of b), m))),
    holds_same b (λ k m. h k (ground (arith, is_among-append k (keys_of a) (keys_of b), m))),
  )

  -- Two sets of tags that agree on the keys that `TagExprKeys` finds in a printed condition, whose
  -- keys hold no double quote, give the condition the same answer.
  pub holds_by_keys :
      (e : Expr)
      → IsQuotable e
      → Agree (tag_expr_keys (print e [])) tags others
      → holds e tags name ≡ holds e others name
  holds_by_keys e q h = holds_same e (λ k m.
      h k (ap (is_among k) (tag_expr_keys-print e q) ∙ is_among-first_keys k (keys_of e) ∙ m))
