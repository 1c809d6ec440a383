-- ===== src/Tags/Tests.antt =====
-- Tag conditions run, and the theorems at concrete inputs.
use mirror_cloud.Common.{
  ◌≡◌, ◌≢◌, sym, ap, ◌∙◌, true, arith, refl, false, [], ◌∷◌, Option, none, some,
}
use mirror_cloud.Bytes.{Bytes, codes, has_byte, same, is_among}
use mirror_cloud.GoMap.{GoMap, lookup}
use mirror_cloud.Tags.{
  tag, container, TagOp, Expr, compare, negate, both, either, parsed, invalid, out_of_fuel,
  parse_tag_expr, holds,
}
use mirror_cloud.Tags.Ends.{parse_tag_expr_ends}
use mirror_cloud.Tags.Print.{print}
use mirror_cloud.Tags.RoundTrip.{parse_tag_expr-print}
use mirror_cloud.Tags.Keys.{tag_expr_keys}
use mirror_cloud.Tags.Keys.Found.{tag_expr_keys-print, first_keys, keys_of}
use mirror_cloud.Tags.Keys.Enough.{Agree, holds_by_keys}

abbrev sample : Expr
sample =
    either
      (both (compare (tag (codes "Env")) TagOp.equal (codes "it's"))
        (negate (compare container TagOp.below (codes "m"))))
      (compare (tag (codes "Env")) TagOp.differs (codes "b"))

abbrev tags : GoMap (Option Bytes)
tags = (codes "Env", some (codes "prod")) ∷ (codes "Gone", none) ∷ []

precedence_ok :
    parse_tag_expr (codes "a = '1' OR b >= '2' and not @container <> 'c'")
    ≡ parsed (
        either (compare (tag (codes "a")) TagOp.equal (codes "1")) (
          both
            (compare (tag (codes "b")) TagOp.at_least (codes "2"))
            (negate (compare container TagOp.differs (codes "c")))))
unfolding parse_tag_expr same
precedence_ok = refl

env : has_byte b'"' (codes "Env") ≡ false
unfolding has_byte
env = refl

parse_tag_expr_ends_example : parse_tag_expr (codes "((a = '1'") ≢ invalid out_of_fuel
parse_tag_expr_ends_example = parse_tag_expr_ends (codes "((a = '1'")

parse_tag_expr-print_example : parse_tag_expr (print sample []) ≡ parsed sample
parse_tag_expr-print_example = parse_tag_expr-print sample ((env, tt), env)

tag_expr_keys-print_example : tag_expr_keys (print sample []) ≡ first_keys (keys_of sample)
tag_expr_keys-print_example = tag_expr_keys-print sample ((env, tt), env)

-- Without the tag that the condition does not name.
abbrev fewer : GoMap (Option Bytes)
fewer = (codes "Env", some (codes "prod")) ∷ []

agreed : (k : Bytes) → same (codes "Env") k ≡ true → lookup k tags ≡ lookup k fewer
unfolding lookup same
agreed k h = ground (arith, h)

named : tag_expr_keys (print sample []) ≡ codes "Env" ∷ []
unfolding first_keys same
named = tag_expr_keys-print sample ((env, tt), env)

first_of : (k j : Bytes) → is_among k (j ∷ []) ≡ true → same j k ≡ true
unfolding is_among
first_of k j h = ground (arith, h)

agree : Agree (tag_expr_keys (print sample [])) tags fewer
agree k h = agreed k (first_of k (codes "Env") (ap (is_among k) (sym named) ∙ h))

holds_by_keys_example : holds sample tags (codes "box") ≡ holds sample fewer (codes "box")
holds_by_keys_example = holds_by_keys tags fewer (codes "box") sample ((env, tt), env) agree
