-- ===== src/Iam/Tests.antt =====
-- Patterns and policies at concrete requests.
use mathlib.Core.List.{Memᴰ}
use mirror_cloud.Common.{
  ℕ, ◌+◌, ◌-◌, ◌*◌, ◌≡◌, refl, true, false, ◌&&◌, [], ◌∷◌, Option, none, some, leb, if◌then◌else◌,
}
use mirror_cloud.Common.Int.{pos}
use mirror_cloud.Bytes.{Bytes, codes, has_byte, same, has_prefix, trim_prefix, cut}
use mirror_cloud.Bytes.Fold.{to_lower, equal_fold, after_first, after_last}
use mirror_cloud.Float.{F64, finite}
use mirror_cloud.Json.{
  text, list, item, no_items, object, Members, member, no_members, at_key, as_object, objects_of,
  texts_of,
}
use mirror_cloud.Iam.Glob.{glob, glob_match}
use mirror_cloud.Iam.Glob.Exact.{glob_match_exact}
use mirror_cloud.Iam.Glob.Fuel.{glob_match_star}
use mirror_cloud.Iam.Policy.{
  any_of, str, statements, statement_action_matches, statement_resource_matches, action_matches,
  resource_matches, as_strings,
}
use mirror_cloud.Iam.Condition.{conditions_match}
use mirror_cloud.Iam.Decide.{
  Ask, decide, authorize, allows, role_from_arn, user_from_arn, iam_action,
}
use mirror_cloud.Iam.Decide.Permit.{Permits, authorize-Permits}
use mirror_cloud.Iam.Decide.Pattern.{deny_covers}

glob_match_exact_example : glob_match (codes "s3:Get*") (codes "s3:GetObject") ≡ true
unfolding glob has_byte
glob_match_exact_example = glob_match_exact (codes "s3:Get*") (codes "s3:GetObject") refl

glob_match_star_example :
    glob_match (codes "*b") (codes "*xb") ≡ glob_match (codes "b") (codes "xb")
glob_match_star_example = glob_match_star (codes "b") (codes "xb")

-- A star in the text is taken for the star of the pattern.
literal_star : glob_match (codes "a*b") (codes "a*xb") ≡ false
unfolding glob_match
literal_star = refl

literal_star_meant : glob (codes "a*b") (codes "a*xb") ≡ true
unfolding glob
literal_star_meant = refl

-- A number of digits.
abbrev digits : ℕ → Bytes → Option F64
digits n [] = some (finite (pos n) 0)
digits n (c ∷ s) =
    let further = digits (n * 10 + (c - 48)) s in if leb 48 c && leb c 57 then further else none

abbrev allow_all : Members
allow_all =
    member (codes "Statement")
      (list (
        item
          (object (
            member (codes "Effect") (text (codes "Allow")) (
              member (codes "Action") (text (codes "*"))
                (member (codes "Resource") (text (codes "*")) no_members))))
          no_items))
      no_members

-- No deletions by IAM actions and S3 ones, of what is kept.
abbrev no_deletes_statement : Members
no_deletes_statement = member (codes "Effect") (text (codes "Deny")) (
    member (codes "Action")
      (list (item (text (codes "iam:Delete*")) (item (text (codes "s3:Delete*")) no_items)))
      (member (codes "Resource") (text (codes "arn:aws:s3:::kept/*")) no_members))

abbrev no_deletes : Members
no_deletes =
    member (codes "Statement") (list (item (object no_deletes_statement) no_items)) no_members

abbrev deletion : Ask
deletion = record {
  action = codes "s3:DeleteObject";
  resource = codes "arn:aws:s3:::kept/a";
  values = [];
}

deny_covers_example : authorize (digits 0) true (allow_all ∷ no_deletes ∷ []) [] deletion ≡ false
unfolding has_byte glob to_lower statements at_key same objects_of as_strings texts_of
    conditions_match as_object
deny_covers_example =
    deny_covers (digits 0) no_deletes no_deletes_statement (codes "s3:Delete*")
      (codes "arn:aws:s3:::kept/*") true (allow_all ∷ no_deletes ∷ []) [] deletion
      (Memᴰ.tail (Memᴰ.head refl)) (Memᴰ.head refl) refl (Memᴰ.tail (Memᴰ.head refl))
      (Memᴰ.head refl) refl refl refl refl refl

abbrev read : Ask
read = record { action = codes "s3:GetObject"; resource = codes "arn:aws:s3:::kept/a"; values = [] }

reading : authorize (digits 0) true (allow_all ∷ no_deletes ∷ []) [] read ≡ true
unfolding authorize allows decide statements at_key objects_of same statement_action_matches str
    statement_resource_matches any_of action_matches resource_matches glob_match to_lower equal_fold
    conditions_match as_object
reading = refl

authorize-Permits_example :
    (true ≡ true)
    × Permits (digits 0) (allow_all ∷ no_deletes ∷ []) read
    × Permits (digits 0) [] read
authorize-Permits_example =
    (authorize-Permits (digits 0) true (allow_all ∷ no_deletes ∷ []) [] read).0 reading

role : role_from_arn (codes "arn:aws:sts::1:assumed-role/app/session") ≡ codes "app"
unfolding role_from_arn after_first has_prefix cut
role = refl

user : user_from_arn (codes "arn:aws:iam::1:user/ann") ≡ codes "ann"
unfolding user_from_arn after_first has_prefix trim_prefix
user = refl

action : iam_action (codes "aws.s3") (codes "GetObject") ≡ codes "s3:GetObject"
unfolding iam_action after_last trim_prefix
action = refl
