-- ===== src/Events/Tests.antt =====
-- Event patterns run, and the theorems at concrete inputs.
use mirror_cloud.Common.{◌≡◌, ◌++◌, refl, true, false, [], ◌∷◌}
use mirror_cloud.Common.Int.{pos}
use mirror_cloud.Bytes.{Bytes, codes, same, has_byte, has_prefix}
use mirror_cloud.Float.{finite}
use mirror_cloud.Dynamo.Value.{
  Value, Values, Members, null, text, bool, list, object, no_values, value, no_members, member,
  to_members,
}
use mirror_cloud.Events.Wildcard.{expression_of, wildcard_expression_exact}
use mirror_cloud.Events.{Library, wildcard_expression, match_fields, match_clauses}

-- No text is a number, and no block has an address.
abbrev bare : Library
bare = record {
  parse_float = λ s. (finite (pos 0) 0, false);
  marshal = λ v. codes "0";
  cidr_contains = λ b a. false;
  match_string = λ e s. same e s;
}

abbrev one : Value → Values
one v = value v no_values

abbrev source_field : Bytes × Value
source_field = (codes "source", list (one (text (codes "aws.ec2"))))

abbrev state_field : Bytes × Value
state_field = (
  codes "state",
  list (one (object (member (codes "anything-but") (list (one (text (codes "off")))) no_members))),
)

abbrev event : Members
event =
    member (codes "source") (text (codes "aws.ec2"))
      (member (codes "state") (text (codes "on")) no_members)

match_ok : match_fields bare (to_members (source_field ∷ state_field ∷ [])) event ≡ true
unfolding match_fields to_members same
match_ok = refl

wildcard_ok : wildcard_expression (codes "a.*b") ≡ codes "^a" ++ (92 ∷ codes "..*b$")
unfolding wildcard_expression has_byte has_prefix
wildcard_ok = refl

abbrev gone : Values
gone = one (object (member (codes "exists") (bool false) no_members))

absent_ok : match_clauses bare gone null false ≡ true
unfolding match_clauses
absent_ok = refl

wildcard_expression_exact_example :
    wildcard_expression (codes "a*[") ≡ codes "^" ++ (expression_of (codes "a*[") ++ codes "$")
wildcard_expression_exact_example = wildcard_expression_exact (codes "a*[")
