-- ===== src/Tags/Lengths.antt =====
-- The parts of a tag condition are no longer than the text.
use mirror_cloud.Common.{
  ℕ, suc, ◌+◌, ◌≤◌, ◌≢◌, Bool, true, false, not, ◌||◌, ◌==◌, [], ◌∷◌, Option, none, some, drop,
  length, length-drop, if◌then◌else◌, arith,
}
use mirror_cloud.Bytes.{Bytes, codes, has_prefix}
use mirror_cloud.Tags.{
  out_of_fuel, unsupported_parameter, container, TagOp, skip_ws, begins_ident, keyword_at, keyword,
  op_of, after_byte, literal, up_to_quote, span_ident, OperandRead, read, unread, quoted_operand,
  word_operand, parameter_operand, parse_operand,
}

pub length-skip_ws : (s : Bytes) → length (skip_ws s) ≤ length s
unfolding skip_ws
length-skip_ws [] = omega arith
length-skip_ws (c ∷ s) = ground (arith, length-skip_ws s)

-- A keyword that is there is taken off; otherwise at most blanks are.
pub length-keyword :
    (word s : Bytes)
    → (if (keyword word s).0 then length word else 0) + length (keyword word s).1 ≤ length s
unfolding keyword keyword_at
length-keyword word s = ground (arith, length-skip_ws s, length-drop (length word) (skip_ws s))

abbrev pub Shorter : ℕ → Option (Bytes × Bytes) → Type 0
Shorter n none = Unit
Shorter n (some (lit, rest)) = length rest ≤ n

pub Shorter-after_byte :
    (c n : ℕ) (o : Option (Bytes × Bytes)) → Shorter n o → Shorter n (after_byte c o)
Shorter-after_byte c n none h = tt
Shorter-after_byte c n (some (lit, rest)) h = h

Shorter-if :
    (n : ℕ) (b : Bool) (o q : Option (Bytes × Bytes))
    → Shorter n o
    → Shorter n q
    → Shorter n (if b then o else q)
Shorter-if n true o q h k = h
Shorter-if n false o q h k = k

Shorter-mono : (m n : ℕ) (o : Option (Bytes × Bytes)) → m ≤ n → Shorter m o → Shorter n o
Shorter-mono m n none l h = tt
Shorter-mono m n (some (lit, rest)) l h = omega (arith, l, h)

pub literal-Shorter : (s : Bytes) → Shorter (length s) (literal s)
unfolding literal
literal-Shorter [] = tt
literal-Shorter (c ∷ []) = Shorter-if 1 (c == b'\'') (some ([], [])) none (omega arith) tt
literal-Shorter (c ∷ d ∷ s) =
    let n = suc (suc (length s)) in
    Shorter-if n (c == b'\'') _ _
      (Shorter-if n (d == b'\'') (after_byte b'\'' (literal s)) (some ([], d ∷ s))
        (Shorter-after_byte b'\'' n (literal s)
          (Shorter-mono (length s) n (literal s) (omega arith) (literal-Shorter s)))
        (omega arith))
      (Shorter-after_byte c n (literal (d ∷ s))
        (Shorter-mono (suc (length s)) n (literal (d ∷ s)) (omega arith) (literal-Shorter (d ∷ s))))

up_to_quote-Shorter : (s : Bytes) → Shorter (length s) (up_to_quote s)
unfolding up_to_quote
up_to_quote-Shorter [] = tt
up_to_quote-Shorter (c ∷ s) =
    let n = suc (length s) in
    Shorter-if n (c == b'"') (some ([], s)) _ (omega arith) (
      Shorter-after_byte c n (up_to_quote s)
        (Shorter-mono (length s) n (up_to_quote s) (omega arith) (up_to_quote-Shorter s)))

pub length-span_ident : (s : Bytes) → length (span_ident s).1 ≤ length s
unfolding span_ident
length-span_ident [] = omega arith
length-span_ident (c ∷ s) = ground (arith, length-span_ident s)

abbrev pub Reads : ℕ → OperandRead → Type 0
Reads n (read key rest) = length rest ≤ n
Reads n (unread e) = e ≢ out_of_fuel

Reads-if :
    (n : ℕ) (b : Bool) (r q : OperandRead) → Reads n r → Reads n q → Reads n (if b then r else q)
Reads-if n true r q h k = h
Reads-if n false r q h k = k

quoted-Reads : (n : ℕ) (o : Option (Bytes × Bytes)) → Shorter n o → Reads n (quoted_operand o)
quoted-Reads n none h = λ e. cc
quoted-Reads n (some (key, rest)) h = h

word-Reads : (n : ℕ) (w rest : Bytes) → length rest ≤ n → Reads n (word_operand (w, rest))
word-Reads n [] rest h = λ e. cc
word-Reads n (c ∷ w) rest h = h

pub parse_operand-Reads : (s : Bytes) → Reads (length s) (parse_operand s)
unfolding parse_operand parameter_operand
parse_operand-Reads [] = λ e. cc
parse_operand-Reads (c ∷ s) =
    let n = suc (length s) in
    Reads-if n (c == b'"') _ _
      (quoted-Reads n (up_to_quote s)
        (Shorter-mono (length s) n (up_to_quote s) (omega arith) (up_to_quote-Shorter s)))
      (Reads-if n (c == b'@') _ _
        (Reads-if n (not (has_prefix (codes "container") s) || begins_ident (drop 9 s))
          (unread unsupported_parameter) (read container (drop 9 s)) (λ e. cc)
          (omega (arith, length-drop 9 s)))
        (word-Reads n (span_ident (c ∷ s)).0 (span_ident (c ∷ s)).1 (length-span_ident (c ∷ s))))

abbrev pub OpShorter : ℕ → Option (TagOp × Bytes) → Type 0
OpShorter n none = Unit
OpShorter n (some (op, rest)) = length rest ≤ n

OpShorter-if :
    (n : ℕ) (b : Bool) (o q : Option (TagOp × Bytes))
    → OpShorter n o
    → OpShorter n q
    → OpShorter n (if b then o else q)
OpShorter-if n true o q h k = h
OpShorter-if n false o q h k = k

pub op_of-OpShorter : (s : Bytes) → OpShorter (length s) (op_of s)
unfolding op_of
op_of-OpShorter s =
    let n = length s in
    let one : length (drop 1 s) ≤ n = omega (arith, length-drop 1 s) in
    let two : length (drop 2 s) ≤ n = omega (arith, length-drop 2 s) in
    OpShorter-if n (has_prefix (codes "<>") s) _ _ two (
      OpShorter-if n (has_prefix (codes ">=") s) _ _ two (
        OpShorter-if n (has_prefix (codes "<=") s) _ _ two (
          OpShorter-if n (has_prefix (codes "=") s) _ _ one (
            OpShorter-if n (has_prefix (codes ">") s) _ _ one
              (OpShorter-if n (has_prefix (codes "<") s) _ none one tt)))))
