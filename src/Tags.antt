-- ===== src/Tags.antt =====
-- Tag conditions: the parser and the evaluator of internal/bir/tagexpr.go. The parser's position is
-- the text that is left, and the function that it makes is an expression to be evaluated.
pub mod PartsEnd
pub mod Steps
pub mod Lengths
pub mod Ends
pub mod Print
pub mod RoundTrip
pub mod Keys
mod Tests
use mirror_cloud.Common.{
  ℕ, zero, suc, ◌+◌, ◌*◌, ◌==◌, Bool, true, false, not, ◌&&◌, ◌||◌, List, [], ◌∷◌, ◌++◌, Option,
  none, some, leb, take, drop, length, if◌then◌else◌,
}
use mirror_cloud.Bytes.{Bytes, codes, same, less, has_prefix}
use mirror_cloud.Bytes.Fold.{equal_fold}
use mirror_cloud.GoMap.{GoMap, lookup}

pub data TagError : Type 0 where
  missing_parenthesis missing_operator value_not_quoted unterminated_literal unterminated_name
        unsupported_parameter expected_name trailing_input out_of_fuel :
      TagError

pub data Operand : Type 0 where
  tag : Bytes → Operand
  container : Operand

-- tagOps
pub data TagOp : Type 0 where
  differs at_least at_most equal above below : TagOp

pub data Expr : Type 0 where
  compare : Operand → TagOp → Bytes → Expr
  negate : Expr → Expr
  both either : Expr → Expr → Expr

-- An expression and the text after it.
pub data Parsed : Type 0 where
  ok : Expr → Bytes → Parsed
  failed : TagError → Parsed

abbrev pub and_then : Parsed → (Expr → Bytes → Parsed) → Parsed
and_then (ok e s) f = f e s
and_then (failed err) f = failed err

-- ws
unfoldable pub skip_ws : Bytes → Bytes
skip_ws [] = []
skip_ws (c ∷ s) = let rest = skip_ws s in if c == 32 || c == 9 then rest else c ∷ s

-- isTagIdentByte
abbrev pub is_ident : ℕ → Bool
is_ident c =
    leb b'a' c && leb c b'z'
    || (leb b'A' c && leb c b'Z' || (leb b'0' c && leb c b'9' || c == b'_'))

abbrev pub begins_ident : Bytes → Bool
begins_ident [] = false
begins_ident (c ∷ s) = is_ident c

-- keyword, at a text without blanks in front.
unfoldable pub keyword_at : Bytes → Bytes → Bool
unfolding equal_fold
keyword_at word s =
    leb (length word) (length s)
    && (equal_fold (take (length word) s) word && not (begins_ident (drop (length word) s)))

-- keyword: whether the word is there, and the text from then on.
unfoldable pub keyword : Bytes → Bytes → Bool × Bytes
unfolding keyword_at skip_ws
keyword word s =
    let at = skip_ws s in if keyword_at word at then (true, drop (length word) at) else (false, at)

-- The operator that a text begins with, the longer ones first.
unfoldable pub op_of : Bytes → Option (TagOp × Bytes)
unfolding has_prefix
op_of s =
    if has_prefix (codes "<>") s
    then some (differs, drop 2 s)
    else if has_prefix (codes ">=") s
    then some (at_least, drop 2 s)
    else if has_prefix (codes "<=") s
    then some (at_most, drop 2 s)
    else if has_prefix (codes "=") s
    then some (equal, drop 1 s)
    else if has_prefix (codes ">") s
    then some (above, drop 1 s)
    else if has_prefix (codes "<") s
    then some (below, drop 1 s)
    else none

abbrev pub after_byte : ℕ → Option (Bytes × Bytes) → Option (Bytes × Bytes)
after_byte c none = none
after_byte c (some (lit, rest)) = some (c ∷ lit, rest)

-- A string literal after its quote; two quotes stand for one.
unfoldable pub literal : Bytes → Option (Bytes × Bytes)
literal [] = none
literal (c ∷ []) = if c == b'\'' then some ([], []) else none
literal (c ∷ d ∷ s) =
    let escaped = literal s in
    let further = literal (d ∷ s) in
    if c == b'\''
    then (if d == b'\'' then after_byte b'\'' escaped else some ([], d ∷ s))
    else after_byte c further

-- The bytes up to a quote, and the text after it.
unfoldable pub up_to_quote : Bytes → Option (Bytes × Bytes)
up_to_quote [] = none
up_to_quote (c ∷ s) =
    let further = up_to_quote s in if c == b'"' then some ([], s) else after_byte c further

-- The bytes of a word, and the text after them.
unfoldable pub span_ident : Bytes → Bytes × Bytes
span_ident [] = ([], [])
span_ident (c ∷ s) =
    let further = span_ident s in if is_ident c then (c ∷ further.0, further.1) else ([], c ∷ s)

pub data OperandRead : Type 0 where
  read : Operand → Bytes → OperandRead
  unread : TagError → OperandRead

abbrev pub quoted_operand : Option (Bytes × Bytes) → OperandRead
quoted_operand none = unread unterminated_name
quoted_operand (some (key, rest)) = read (tag key) rest

abbrev pub word_operand : Bytes × Bytes → OperandRead
word_operand ([], rest) = unread expected_name
word_operand (c ∷ word, rest) = read (tag (c ∷ word)) rest

unfoldable pub parameter_operand : Bytes → OperandRead
unfolding has_prefix
parameter_operand rest =
    if not (has_prefix (codes "container") rest) || begins_ident (drop 9 rest)
    then unread unsupported_parameter
    else read container (drop 9 rest)

-- parseOperand
unfoldable pub parse_operand : Bytes → OperandRead
unfolding up_to_quote span_ident parameter_operand
parse_operand [] = unread expected_name
parse_operand (c ∷ s) =
    if c == b'"'
    then quoted_operand (up_to_quote s)
    else if c == b'@'
    then parameter_operand s
    else word_operand (span_ident (c ∷ s))

abbrev pub with_literal : Operand → TagOp → Option (Bytes × Bytes) → Parsed
with_literal key op none = failed unterminated_literal
with_literal key op (some (value, rest)) = ok (compare key op value) rest

-- The value of a comparison.
unfoldable pub parse_value : Operand → TagOp → Bytes → Parsed
unfolding literal
parse_value key op [] = failed value_not_quoted
parse_value key op (c ∷ s) =
    if c == b'\'' then with_literal key op (literal s) else failed value_not_quoted

unfoldable pub with_op : Operand → Option (TagOp × Bytes) → Parsed
unfolding skip_ws parse_value
with_op key none = failed missing_operator
with_op key (some (op, rest)) = parse_value key op (skip_ws rest)

unfoldable pub with_operand : OperandRead → Parsed
unfolding op_of skip_ws with_op
with_operand (unread e) = failed e
with_operand (read key rest) = with_op key (op_of (skip_ws rest))

-- parseComparison
unfoldable pub parse_comparison : Bytes → Parsed
unfolding parse_operand skip_ws with_operand
parse_comparison s = with_operand (parse_operand (skip_ws s))

-- The closing parenthesis after an expression.
unfoldable pub close : Expr → Bytes → Parsed
unfolding skip_ws
close e s = elim (skip_ws s) [
  | [] ↦ failed missing_parenthesis
  | c ∷ rest ↦ if c == b')' then ok e rest else failed missing_parenthesis
]

abbrev pub negated : Expr → Bytes → Parsed
negated e s = ok (negate e) s

-- The text after an opening parenthesis, if it begins with one.
abbrev pub opened : Bytes → Option Bytes
opened [] = none
opened (c ∷ s) = if c == b'(' then some s else none

-- parseOr, parseAnd and parseUnary with their loops; each call takes one of the turns given.
unfoldable mutual
  unfolding keyword skip_ws close parse_comparison

  pub parse_or : ℕ → Bytes → Parsed
  parse_or zero s = failed out_of_fuel
  parse_or (suc f) s = and_then (parse_and f s) (or_loop f)

  pub or_loop : ℕ → Expr → Bytes → Parsed
  or_loop zero left s = failed out_of_fuel
  or_loop (suc f) left s = elim (keyword (codes "or") s).0 [
    | true ↦
        and_then (parse_and f (keyword (codes "or") s).1) (λ right. or_loop f (either left right))
    | false ↦ ok left (keyword (codes "or") s).1
  ]

  pub parse_and : ℕ → Bytes → Parsed
  parse_and zero s = failed out_of_fuel
  parse_and (suc f) s = and_then (parse_unary f s) (and_loop f)

  pub and_loop : ℕ → Expr → Bytes → Parsed
  and_loop zero left s = failed out_of_fuel
  and_loop (suc f) left s = elim (keyword (codes "and") s).0 [
    | true ↦
        and_then (parse_unary f (keyword (codes "and") s).1) (λ right. and_loop f (both left right))
    | false ↦ ok left (keyword (codes "and") s).1
  ]

  pub parse_unary : ℕ → Bytes → Parsed
  parse_unary zero s = failed out_of_fuel
  parse_unary (suc f) s = elim (keyword (codes "not") s).0 [
    | true ↦ and_then (parse_unary f (keyword (codes "not") s).1) negated
    | false ↦ elim (opened (skip_ws (keyword (codes "not") s).1)) [
      | some rest ↦ and_then (parse_or f rest) close
      | none ↦ parse_comparison (keyword (codes "not") s).1
    ]
  ]

-- What ParseTagExpr answers.
pub data Outcome : Type 0 where
  parsed : Expr → Outcome
  invalid : TagError → Outcome

abbrev pub at_end : Expr → Bytes → Outcome
at_end e [] = parsed e
at_end e (_ ∷ _) = invalid trailing_input

unfoldable pub finish : Parsed → Outcome
unfolding skip_ws
finish (failed e) = invalid e
finish (ok e s) = at_end e (skip_ws s)

-- Five turns for each byte are enough.
abbrev pub turns : Bytes → ℕ
turns s = 5 * length s + 5

-- ParseTagExpr
unfoldable pub parse_tag_expr : Bytes → Outcome
unfolding parse_or finish
parse_tag_expr s = finish (parse_or (turns s) s)

unfoldable pub op_holds : TagOp → Bytes → Bytes → Bool
unfolding same less
op_holds equal have value = same have value
op_holds differs have value = not (same have value)
op_holds above have value = less value have
op_holds at_least have value = not (less have value)
op_holds below have value = less have value
op_holds at_most have value = not (less value have)

-- What a comparison compares: for a tag what its value prints as, if it is there and not nil.
unfoldable pub operand_of : Operand → GoMap (Option Bytes) → Bytes → Option Bytes
unfolding lookup
operand_of container tags name = some name
operand_of (tag key) tags name = elim (lookup key tags) [ some (some v) ↦ some v | _ ↦ none ]

-- A comparison of what is there; what is missing matches nothing.
unfoldable pub value_holds : TagOp → Bytes → Option Bytes → Bool
unfolding op_holds
value_holds op value none = false
value_holds op value (some have) = op_holds op have value

-- The functions that ParseTagExpr answers, at the tags and the name of the container.
unfoldable pub holds : Expr → GoMap (Option Bytes) → Bytes → Bool
unfolding operand_of value_holds
holds (compare key op value) tags name = value_holds op value (operand_of key tags name)
holds (negate e) tags name = not (holds e tags name)
holds (both a b) tags name = holds a tags name && holds b tags name
holds (either a b) tags name = holds a tags name || holds b tags name
