-- ===== src/Events/Fields.antt =====
-- The fields of an event pattern that an event lacks.
use mirror_cloud.Common.{◌≡◌, refl, Bool, false, ◌||◌, arith}
use mirror_cloud.Bytes.{codes}
use mirror_cloud.Dynamo.Value.{
  Value, Values, null, text, num, bool, list, object, no_values, value, at_key,
}
use mirror_cloud.Events.{Library, match_clauses, match_clause, match_object, exists_test, or_test}

-- A clause that asks for a field not to be there.
abbrev pub asks_absent : Value → Bool
asks_absent (object m) = or_test (exists_test (at_key (codes "exists") m) false) false
asks_absent _ = false

abbrev pub any_absent : Values → Bool
any_absent no_values = false
any_absent (value clause clauses) = asks_absent clause || any_absent clauses

module _ (l : Library) where
  clause_absent : (clause : Value) → match_clause l clause null false ≡ asks_absent clause
  unfolding match_clause match_object
  clause_absent null = refl
  clause_absent (text s) = refl
  clause_absent (num f) = refl
  clause_absent (bool b) = refl
  clause_absent (list vs) = refl
  clause_absent (object m) = refl

  -- A field that is absent matches where a clause asks for it not to be there.
  pub match_clauses_absent :
      (clauses : Values) → match_clauses l clauses null false ≡ any_absent clauses
  unfolding match_clauses
  match_clauses_absent no_values = refl
  match_clauses_absent (value clause clauses) =
      ground (arith, clause_absent clause, match_clauses_absent clauses)
