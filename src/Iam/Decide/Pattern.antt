-- ===== src/Iam/Decide/Pattern.antt =====
-- A Deny statement and a request that it covers (internal/services/aws/iam/authorizer.go).
use mathlib.Core.List.{Memᴰ}
use mirror_cloud.Common.{
  ◌≡◌, refl, ap, none, some, ◌∙◌, Bool, true, false, List, [], ◌∷◌, Option, arith, Bool-cases, inl,
  inr,
}
use mirror_cloud.Bytes.{Bytes, codes, same, has_byte}
use mirror_cloud.Bytes.Fold.{to_lower, equal_fold}
use mirror_cloud.Json.{Json, text, Members, at_key, as_text}
use mirror_cloud.Float.{F64}
use mirror_cloud.Iam.Glob.{star_byte, glob, glob_match}
use mirror_cloud.Iam.Glob.Exact.{glob_match_exact}
use mirror_cloud.Iam.Policy.{
  any_of, str, as_strings, statements, statement_action_matches, statement_resource_matches,
  action_matches, resource_matches,
}
use mirror_cloud.Iam.Condition.{conditions_match}
use mirror_cloud.Iam.Decide.{Ask, statement_matches, authorize}
use mirror_cloud.Iam.Decide.Permit.{authorize-Permits}

has_byte-to_lower : (s : Bytes) → has_byte star_byte (to_lower s) ≡ has_byte star_byte s
unfolding has_byte to_lower
has_byte-to_lower [] = refl
has_byte-to_lower (c ∷ s) = ground (arith, has_byte-to_lower s)

any_of-Memᴰ :
    (f : Bytes → Bool) (p : Bytes) (ps : List Bytes) → Memᴰ p ps → f p ≡ true → any_of f ps ≡ true
unfolding any_of
any_of-Memᴰ f p [] m h = elim m [ ]
any_of-Memᴰ f p (q ∷ ps) (Memᴰ.head e) h = ground (arith, ap f e, h)
any_of-Memᴰ f p (q ∷ ps) (Memᴰ.tail m) h = ground (arith, any_of-Memᴰ f p ps m h)

action_by :
    (o : Option Json) (st : Members) (action p : Bytes)
    → at_key (codes "Action") st ≡ o
    → Memᴰ p (as_strings o)
    → glob_match (to_lower p) (to_lower action) ≡ true
    → statement_action_matches st action ≡ true
unfolding statement_action_matches action_matches
action_by none st action p e m h =
    let n : Memᴰ {A = Bytes} p [] = unfold as_strings in m in elim n [ ]
action_by (some spec) st action p e m h =
    rw (e, statement_action_matches)
      (any_of-Memᴰ (λ k. glob_match (to_lower k) (to_lower action)) p (as_strings (some spec)) m h)

resource_among :
    (ps : List Bytes) (resource q : Bytes)
    → Memᴰ q ps
    → glob_match q resource ≡ true
    → (elim ps [ [] ↦ true | p ∷ more ↦ any_of (λ k. glob_match k resource) (p ∷ more) ]) ≡ true
resource_among [] resource q m h = refl
resource_among (p ∷ ps) resource q m h = any_of-Memᴰ (λ k. glob_match k resource) q (p ∷ ps) m h

resource_by :
    (o : Option Json) (st : Members) (resource q : Bytes)
    → at_key (codes "Resource") st ≡ o
    → Memᴰ q (as_strings o)
    → glob_match q resource ≡ true
    → statement_resource_matches st resource ≡ true
unfolding statement_resource_matches resource_matches
resource_by none st resource q e m h =
    let n : Memᴰ {A = Bytes} q [] = unfold as_strings in m in elim n [ ]
resource_by (some spec) st resource q e m h =
    rw (e, statement_resource_matches) (resource_among (as_strings (some spec)) resource q m h)

effect_by :
    (st : Members)
    → at_key (codes "Effect") st ≡ some (text (codes "Deny"))
    → equal_fold (str (at_key (codes "Effect") st)) (codes "Deny") ≡ true
unfolding str as_text equal_fold to_lower same
effect_by st e = rw e refl

module _ (parse_float : Bytes → Option F64) where
  -- A request whose action and resource hold no `*` is not authorized where one of the principal's
  -- documents has a statement with the Effect `Deny`, an Action and a Resource among whose texts
  -- are patterns that match (the action's in lower case), and a Condition that holds or none,
  -- whatever the other documents and statements say.
  pub deny_covers :
      (doc st : Members) (p q : Bytes) (active : Bool) (docs scps : List Members) (ask : Ask)
      → Memᴰ doc docs
      → Memᴰ st (statements doc)
      → at_key (codes "Effect") st ≡ some (text (codes "Deny"))
      → Memᴰ p (as_strings (at_key (codes "Action") st))
      → Memᴰ q (as_strings (at_key (codes "Resource") st))
      → conditions_match parse_float (at_key (codes "Condition") st) ask.values ≡ true
      → has_byte star_byte ask.action ≡ false
      → has_byte star_byte ask.resource ≡ false
      → glob (to_lower p) (to_lower ask.action) ≡ true
      → glob q ask.resource ≡ true
      → authorize parse_float active docs scps ask ≡ false
  unfolding statement_matches
  deny_covers doc st p q active docs scps ask m l e mp mq c a r ga gr =
      let ea =
        glob_match_exact (to_lower p) (to_lower ask.action) (has_byte-to_lower ask.action ∙ a) in
      let er = glob_match_exact q ask.resource r in
      let hit : statement_matches parse_float (codes "Deny") ask st ≡ true = ground (
        arith,
        effect_by st e,
        action_by (at_key (codes "Action") st) st ask.action p refl mp (ea ∙ ga),
        resource_by (at_key (codes "Resource") st) st ask.resource q refl mq (er ∙ gr),
        c,
      ) in
      elim (Bool-cases (authorize parse_float active docs scps ask)) [
        | inr f ↦ f
        | inl t ↦
            let (_, (deny, _), _) = (authorize-Permits parse_float active docs scps ask).0 t in
            absurd (deny (doc, st, m, l, hit))
      ]
