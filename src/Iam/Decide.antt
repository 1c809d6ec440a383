-- ===== src/Iam/Decide.antt =====
-- effectMatch, decideWithContext and authorize of internal/services/aws/iam/authorizer.go, at the
-- documents that were loaded.
pub mod Permit
pub mod Order
pub mod Pattern
use mirror_cloud.Common.{
  ℕ, Bool, true, false, not, ◌&&◌, ◌||◌, List, [], ◌∷◌, ◌++◌, Option, none, some, if◌then◌else◌,
}
use mirror_cloud.Bytes.{Bytes, codes, trim_prefix, cut, is_empty}
use mirror_cloud.Bytes.Fold.{equal_fold, after_first, after_last}
use mirror_cloud.GoMap.{GoMap}
use mirror_cloud.Json.{Members, at_key}
use mirror_cloud.Float.{F64}
use mirror_cloud.Iam.Policy.{
  any_of, str, statements, statement_action_matches, statement_resource_matches,
}
use mirror_cloud.Iam.Condition.{conditions_match}

-- The kinds of answer of decideWithContext.

pub data Decision : Type 0 where
  allowed explicit_deny implicit_deny : Decision

-- What is asked: an action on a resource, with the values of the condition keys.
pub record Ask : Type 0 where
  pub action : Bytes
  pub resource : Bytes
  pub values : GoMap Bytes

-- len(docs) == 0
abbrev pub is_no_docs : List Members → Bool
is_no_docs [] = true
is_no_docs (_ ∷ _) = false

module _ (parse_float : Bytes → Option F64) where
  -- The test of effectMatch on a statement.
  unfoldable pub statement_matches : Bytes → Ask → Members → Bool
  statement_matches effect ask st =
      equal_fold (str (at_key (codes "Effect") st)) effect
      && statement_action_matches st ask.action
      && statement_resource_matches st ask.resource
      && conditions_match parse_float (at_key (codes "Condition") st) ask.values

  -- effectMatch
  unfoldable pub effect_match : List Members → Bytes → Ask → Bool
  unfolding any_of statement_matches
  effect_match docs effect ask =
      any_of (λ doc. any_of (statement_matches effect ask) (statements doc)) docs

  -- decideWithContext
  unfoldable pub decide : List Members → Ask → Decision
  unfolding effect_match
  decide docs ask =
      if effect_match docs (codes "Deny") ask
      then explicit_deny
      else if is_no_docs docs
      then allowed
      else if effect_match docs (codes "Allow") ask
      then allowed
      else implicit_deny

  -- `decideWithContext(docs, action, resource, values) != "allowed"`, negated.
  unfoldable pub allows : List Members → Ask → Bool
  unfolding decide
  allows docs ask = elim (decide docs ask) [
    | allowed ↦ true
    | explicit_deny ↦ false
    | implicit_deny ↦ false
  ]

  -- The checks of authorize, with the documents of the principal and of the organisation: whether
  -- it answers no error.
  unfoldable pub authorize : Bool → List Members → List Members → Ask → Bool
  unfolding allows
  authorize active docs scps ask =
      if not active
      then false
      else if not (allows docs ask)
      then false
      else elim scps [ [] ↦ true | s ∷ ss ↦ allows (s ∷ ss) ask ]

-- roleFromARN
unfoldable pub role_from_arn : Bytes → Bytes
role_from_arn arn = elim (after_first (codes ":assumed-role/") arn) [
  | none ↦ []
  | some rest ↦ (cut 47 rest).0
]

-- userFromARN
unfoldable pub user_from_arn : Bytes → Bytes
user_from_arn arn = elim (after_first (codes ":user/") arn) [
  | none ↦ []
  | some rest ↦ trim_prefix (codes "/") rest
]

-- iamAction
unfoldable pub iam_action : Bytes → Bytes → Bytes
iam_action service_id operation =
    let svc = trim_prefix (codes "aws.") service_id in
    elim (after_last 46 svc) [ none ↦ svc | some last ↦ last ] ++ codes ":" ++ operation
