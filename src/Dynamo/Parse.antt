-- ===== src/Dynamo/Parse.antt =====
-- parse of internal/services/aws/dynamodb/expr/expr.go. Each call of itself is on a shorter text,
-- so the length of the text and one are calls enough.
pub mod Ends
use mirror_cloud.Common.{
  ℕ, zero, suc, ◌+◌, Bool, true, false, not, ◌&&◌, List, [], ◌∷◌, ◌++◌, Option, none, some, length,
  if◌then◌else◌,
}
use mirror_cloud.Common.Int.{pos}
use mirror_cloud.Bytes.{Bytes, codes, has_prefix, trim_prefix, is_empty, cut}
use mirror_cloud.Bytes.Fold.{has_suffix, trim_suffix}
use mirror_cloud.Bytes.Words.{trim_space}
use mirror_cloud.Dynamo.Split.{index_top, strip_parens, before_close, split_args}

-- node: a text, or an operator or function with its operands.
mutual
  pub data Node : Type 0 where
    leaf : Bytes → Node
    call : Bytes → Nodes → Node

  pub data Nodes : Type 0 where
    no_nodes : Nodes
    node : Node → Nodes → Nodes

-- The first of some operators that stands in the text outside parentheses.
unfoldable pub first_op : List Bytes → Bytes → Option (Bytes × Bytes × Bytes)
unfolding index_top
first_op [] s = none
first_op (op ∷ ops) s = elim (index_top op (pos 0) s) [
  | some (left, right) ↦ some (op, left, right)
  | none ↦ first_op ops s
]

abbrev pub between_ends : Bytes → Option (Bytes × Bytes) → Option (Bytes × Bytes × Bytes)
between_ends left none = none
between_ends left (some (lo, hi)) = some (left, lo, hi)

unfoldable pub between_rest : Option (Bytes × Bytes) → Option (Bytes × Bytes × Bytes)
unfolding index_top
between_rest none = none
between_rest (some (left, rest)) = between_ends left (index_top (codes " AND ") (pos 0) rest)

-- The three operands of the first BETWEEN and the first AND after it.
unfoldable pub between_parts : Bytes → Option (Bytes × Bytes × Bytes)
unfolding index_top between_rest
between_parts s = between_rest (index_top (codes " BETWEEN ") (pos 0) s)

abbrev pub connectives : List Bytes
connectives = codes " OR " ∷ codes " AND " ∷ []

abbrev pub comparisons : List Bytes
comparisons = codes "<>" ∷ codes "<=" ∷ codes ">=" ∷ codes "=" ∷ codes "<" ∷ codes ">" ∷ []

abbrev pub sums : List Bytes
sums = codes " + " ∷ codes " - " ∷ []

abbrev pub named_call : Bytes → Option Bytes → Option (Bytes × Bytes)
named_call name none = none
named_call name (some args) = some (name, args)

-- The name and the arguments of a call.
unfoldable pub call_parts : Bytes → Option (Bytes × Bytes)
unfolding before_close cut
call_parts s =
    if (cut b'(' s).2 && not (is_empty (cut b'(' s).0)
    then named_call (cut b'(' s).0 (before_close (cut b'(' s).1)
    else none

abbrev pub in_list : Bytes → Bytes
in_list s = trim_suffix (codes ")") (trim_prefix (codes "(") (trim_space s))

-- The operands as nodes, by a parser.
unfoldable pub nodes_of : (Bytes → Node) → List Bytes → Nodes
nodes_of p [] = no_nodes
nodes_of p (s ∷ ss) = node (p s) (nodes_of p ss)

-- What the text is, before its operands are parsed.
pub data Form : Type 0 where
  plain : Bytes → Form
  operation : Bytes → List Bytes → Form

abbrev pub binary : Bytes × Bytes × Bytes → Form
binary (op, left, right) = operation (trim_space op) (left ∷ right ∷ [])

abbrev pub or_form : Option Form → Form → Form
or_form none g = g
or_form (some f) g = f

abbrev pub binary_form : Option (Bytes × Bytes × Bytes) → Option Form
binary_form none = none
binary_form (some parts) = some (binary parts)

abbrev pub between_of : Option (Bytes × Bytes × Bytes) → Option Form
between_of none = none
between_of (some (left, lo, hi)) = some (operation (codes "BETWEEN") (left ∷ lo ∷ hi ∷ []))

unfoldable pub not_form : Bytes → Option Form
not_form s =
    if has_prefix (codes "NOT ") s
    then some (operation (codes "NOT") (trim_prefix (codes "NOT ") s ∷ []))
    else none

unfoldable pub in_of : Option (Bytes × Bytes) → Option Form
unfolding split_args
in_of none = none
in_of (some (left, rest)) = some (operation (codes "IN") (left ∷ split_args (in_list rest)))

unfoldable pub call_of : Option (Bytes × Bytes) → Option Form
unfolding split_args
call_of none = none
call_of (some (name, args)) = some (operation name (split_args args))

-- The tests of parse, in order, on a text without parentheses round it.
unfoldable pub form_of : Bytes → Form
unfolding between_parts not_form index_top call_parts first_op in_of call_of
form_of s = or_form (between_of (between_parts s)) (
    or_form (binary_form (first_op connectives s)) (
      or_form (not_form s) (
        or_form (in_of (index_top (codes " IN ") (pos 0) s)) (
          or_form (binary_form (first_op comparisons s)) (
            or_form (binary_form (first_op sums s))
              (or_form (call_of (call_parts s)) (plain (trim_space s))))))))

-- The node of a form, by a parser of the operands.
unfoldable pub node_of : (Bytes → Node) → Form → Node
unfolding nodes_of
node_of p (plain s) = leaf s
node_of p (operation op parts) = call op (nodes_of p parts)

unfoldable pub parse : ℕ → Bytes → Node
unfolding form_of node_of strip_parens
parse zero s = leaf []
parse (suc fuel) s = node_of (parse fuel) (form_of (strip_parens (suc (length s)) s))

unfoldable pub parse_expr : Bytes → Node
unfolding parse
parse_expr s = parse (suc (length s)) s
