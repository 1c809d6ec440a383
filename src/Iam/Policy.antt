-- ===== src/Iam/Policy.antt =====
-- The evaluation of policy documents in internal/services/aws/iam/authorizer.go.
use mirror_cloud.Common.{
  Bool, true, false, not, ◌||◌, List, [], ◌∷◌, Option, none, some, if◌then◌else◌,
}
use mirror_cloud.Bytes.{Bytes, codes}
use mirror_cloud.Bytes.Fold.{to_lower, equal_fold}
use mirror_cloud.GoMap.{GoMap}
use mirror_cloud.Json.{Json, text, list, object, Members, at_key, as_text, texts_of, objects_of}
use mirror_cloud.Iam.Glob.{glob_match}

-- Some element passes a test: a loop that returns true at the first that does.
unfoldable pub any_of {ℓ} : {A : Type ℓ} → (A → Bool) → List A → Bool
any_of test [] = false
any_of test (a ∷ l) = test a || any_of test l

-- str
unfoldable pub str : Option Json → Bytes
unfolding as_text
str v = as_text v

-- asStrings
unfoldable pub as_strings : Option Json → List Bytes
unfolding texts_of
as_strings (some (text s)) = s ∷ []
as_strings (some (list l)) = texts_of l
as_strings _ = []

-- statements
unfoldable pub statements : Members → List Members
unfolding at_key objects_of
statements doc = elim (at_key (codes "Statement") doc) [
  | some (list l) ↦ objects_of l
  | some (object m) ↦ m ∷ []
  | _ ↦ []
]

-- actionMatches
unfoldable pub action_matches : Option Json → Bytes → Bool
unfolding as_strings any_of
action_matches spec action =
    any_of (λ p. glob_match (to_lower p) (to_lower action)) (as_strings spec)

-- resourceMatches
unfoldable pub resource_matches : Option Json → Bytes → Bool
unfolding as_strings any_of
resource_matches spec resource = elim (as_strings spec) [
  | [] ↦ true
  | p ∷ ps ↦ any_of (λ q. glob_match q resource) (p ∷ ps)
]

-- statementActionMatches
unfoldable pub statement_action_matches : Members → Bytes → Bool
unfolding at_key action_matches
statement_action_matches st action = elim (at_key (codes "Action") st) [
  | some spec ↦ action_matches (some spec) action
  | none ↦ not (action_matches (at_key (codes "NotAction") st) action)
]

-- statementResourceMatches
unfoldable pub statement_resource_matches : Members → Bytes → Bool
unfolding at_key resource_matches
statement_resource_matches st resource = elim (at_key (codes "Resource") st) [
  | some spec ↦ resource_matches (some spec) resource
  | none ↦ not (resource_matches (at_key (codes "NotResource") st) resource)
]

-- conditionValue; of two keys that fold to one, the loop over a map meets either first.
unfoldable pub condition_value : GoMap Bytes → Bytes → Option Bytes
condition_value [] key = none
condition_value ((candidate, value) ∷ values) key =
    if equal_fold candidate key then some value else condition_value values key

-- matchesAny
unfoldable pub matches_any : List Bytes → Bytes → Bool
unfolding any_of
matches_any patterns actual = any_of (λ p. glob_match p actual) patterns
