-- ===== src/Iam/Decide/Order.antt =====
-- The order of the documents does not matter to a decision
-- (internal/services/aws/iam/authorizer.go).
use mathlib.Core.List.{Permᴰ}
use mirror_cloud.Common.{◌≡◌, refl, ap, ◌∙◌, Bool, List, Option, arith}
use mirror_cloud.Bytes.{Bytes, codes}
use mirror_cloud.Json.{Members}
use mirror_cloud.Float.{F64}
use mirror_cloud.Iam.Policy.{any_of, statements}
use mirror_cloud.Iam.Decide.{Ask, statement_matches, effect_match, decide, is_no_docs}

any_of-Perm {ℓ} :
    {A : Type ℓ} (test : A → Bool) {l l' : List A} → Permᴰ l l' → any_of test l ≡ any_of test l'
unfolding any_of
any_of-Perm test Permᴰ.nil = refl
any_of-Perm test (Permᴰ.cons e p) = ground (arith, ap test e, any_of-Perm test p)
any_of-Perm test (Permᴰ.swap e f) = ground (arith, ap test e, ap test f)
any_of-Perm test (Permᴰ.trans p q) = any_of-Perm test p ∙ any_of-Perm test q

is_no_docs-Perm : {l l' : List Members} → Permᴰ l l' → is_no_docs l ≡ is_no_docs l'
is_no_docs-Perm Permᴰ.nil = refl
is_no_docs-Perm (Permᴰ.cons e p) = refl
is_no_docs-Perm (Permᴰ.swap e f) = refl
is_no_docs-Perm (Permᴰ.trans p q) = is_no_docs-Perm p ∙ is_no_docs-Perm q

module _ (parse_float : Bytes → Option F64) where
  effect_match-Perm :
      (effect : Bytes) (ask : Ask) {docs docs' : List Members}
      → Permᴰ docs docs'
      → effect_match parse_float docs effect ask ≡ effect_match parse_float docs' effect ask
  unfolding effect_match
  effect_match-Perm effect ask p =
      any_of-Perm (λ doc. any_of (statement_matches parse_float effect ask) (statements doc)) p

  -- The decision does not depend on the order of the documents.
  pub decide-Perm :
      (ask : Ask) {docs docs' : List Members}
      → Permᴰ docs docs'
      → decide parse_float docs ask ≡ decide parse_float docs' ask
  unfolding decide
  decide-Perm ask p = rw (
    effect_match-Perm (codes "Deny") ask p,
    effect_match-Perm (codes "Allow") ask p,
    is_no_docs-Perm p,
  )
