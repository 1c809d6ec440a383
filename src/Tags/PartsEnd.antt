-- ===== src/Tags/PartsEnd.antt =====
-- The parts of the parser of tag conditions end.
use mirror_cloud.Common.{
  ℕ, ◌≤◌, ◌≢◌, Bool, true, false, ◌==◌, [], ◌∷◌, Option, none, some, length, if◌then◌else◌, arith,
}
use mirror_cloud.Bytes.{Bytes}
use mirror_cloud.Tags.{
  out_of_fuel, missing_parenthesis, value_not_quoted, Operand, TagOp, Expr, Parsed, ok, failed,
  and_then, skip_ws, op_of, literal, OperandRead, read, unread, parse_operand, with_literal,
  parse_value, with_op, with_operand, parse_comparison, close,
}
use mirror_cloud.Tags.Lengths.{
  length-skip_ws, Shorter, literal-Shorter, Reads, parse_operand-Reads, OpShorter, op_of-OpShorter,
}

-- What a parser may answer: an expression with no more text than given, or an error of the text.
abbrev pub Ends : ℕ → Parsed → Type 0
Ends n (ok e s) = length s ≤ n
Ends n (failed e) = e ≢ out_of_fuel

pub Ends-mono : (m n : ℕ) (r : Parsed) → m ≤ n → Ends m r → Ends n r
Ends-mono m n (ok e s) l h = omega (arith, l, h)
Ends-mono m n (failed e) l h = h

pub Ends-if : (n : ℕ) (b : Bool) (r q : Parsed) → Ends n r → Ends n q → Ends n (if b then r else q)
Ends-if n true r q h k = h
Ends-if n false r q h k = k

pub literal-Ends :
    (n : ℕ) (key : Operand) (op : TagOp) (o : Option (Bytes × Bytes))
    → Shorter n o
    → Ends n (with_literal key op o)
literal-Ends n key op none h = λ e. cc
literal-Ends n key op (some (value, rest)) h = h

pub parse_value-Ends :
    (n : ℕ) (key : Operand) (op : TagOp) (s : Bytes) → length s ≤ n → Ends n (parse_value key op s)
unfolding parse_value
parse_value-Ends n key op [] h = λ e. cc
parse_value-Ends n key op (c ∷ s) h =
    Ends-if n (c == b'\'') (with_literal key op (literal s)) (failed value_not_quoted)
      (Ends-mono (length s) n (with_literal key op (literal s)) (omega (arith, h))
        (literal-Ends (length s) key op (literal s) (literal-Shorter s)))
      (λ e. cc)

pub with_op-Ends :
    (n : ℕ) (key : Operand) (o : Option (TagOp × Bytes)) → OpShorter n o → Ends n (with_op key o)
unfolding with_op
with_op-Ends n key none h = λ e. cc
with_op-Ends n key (some (op, rest)) h =
    parse_value-Ends n key op (skip_ws rest) (omega (arith, h, length-skip_ws rest))

pub with_operand-Ends : (n : ℕ) (r : OperandRead) → Reads n r → Ends n (with_operand r)
unfolding with_operand
with_operand-Ends n (unread e) h = h
with_operand-Ends n (read key rest) h =
    Ends-mono (length (skip_ws rest)) n (with_op key (op_of (skip_ws rest)))
      (omega (arith, h, length-skip_ws rest))
      (with_op-Ends (length (skip_ws rest)) key (op_of (skip_ws rest))
        (op_of-OpShorter (skip_ws rest)))

pub parse_comparison-Ends : (s : Bytes) → Ends (length s) (parse_comparison s)
unfolding parse_comparison
parse_comparison-Ends s =
    Ends-mono (length (skip_ws s)) (length s) (with_operand (parse_operand (skip_ws s)))
      (length-skip_ws s)
      (with_operand-Ends (length (skip_ws s)) (parse_operand (skip_ws s))
        (parse_operand-Reads (skip_ws s)))

pub closed :
    (n : ℕ) (e : Expr) (t : Bytes)
    → length t ≤ n
    → Ends n (elim t [
      | [] ↦ failed missing_parenthesis
      | c ∷ rest ↦ if c == b')' then ok e rest else failed missing_parenthesis
    ])
closed n e [] h = λ x. cc
closed n e (c ∷ rest) h =
    Ends-if n (c == b')') (ok e rest) (failed missing_parenthesis) (omega (arith, h)) (λ x. cc)

pub close-Ends : (n : ℕ) (e : Expr) (s : Bytes) → length s ≤ n → Ends n (close e s)
unfolding close
close-Ends n e s h = closed n e (skip_ws s) (omega (arith, h, length-skip_ws s))

-- A parser that goes on after another.
pub and_then-Ends :
    (m n : ℕ) (r : Parsed) (f : Expr → Bytes → Parsed)
    → Ends m r
    → ((e : Expr) (s : Bytes) → length s ≤ m → Ends n (f e s))
    → Ends n (and_then r f)
and_then-Ends m n (ok e s) f h k = k e s h
and_then-Ends m n (failed e) f h k = h
