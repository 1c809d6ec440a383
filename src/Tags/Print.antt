-- ===== src/Tags/Print.antt =====
-- Tag conditions as text, and the parser's parts on that text.
use mirror_cloud.Common.{
  ℕ, ◌≡◌, refl, true, false, ◌||◌, ◌==◌, [], ◌∷◌, ◌++◌, none, some, Bool-cases, inl, inr,
  if◌then◌else◌, arith,
}
use mirror_cloud.Bytes.{Bytes, codes, same, has_prefix, has_byte}
use mirror_cloud.Bytes.Fold.{lower_byte, to_lower, equal_fold}
use mirror_cloud.Tags.{
  Operand, tag, container, TagOp, differs, at_least, at_most, equal, above, below, Expr, compare,
  negate, both, either, Parsed, ok, skip_ws, begins_ident, keyword_at, keyword, op_of, after_byte,
  literal, up_to_quote, parameter_operand, read, parse_operand, with_literal, parse_value, with_op,
  with_operand, parse_comparison, opened,
}

unfoldable pub op_text : TagOp → Bytes → Bytes
op_text differs r = b'<' ∷ b'>' ∷ r
op_text at_least r = b'>' ∷ b'=' ∷ r
op_text at_most r = b'<' ∷ b'=' ∷ r
op_text equal r = b'=' ∷ r
op_text above r = b'>' ∷ r
op_text below r = b'<' ∷ r

unfoldable pub escape : Bytes → Bytes → Bytes
escape [] r = r
escape (c ∷ v) r = let rest = escape v r in if c == b'\'' then b'\'' ∷ b'\'' ∷ rest else c ∷ rest

unfoldable pub operand_text : Operand → Bytes → Bytes
operand_text (tag key) r = b'"' ∷ (key ++ (b'"' ∷ r))
operand_text container r = codes "@container" ++ r

-- A condition as text, with parentheses round each operand, before the text that follows.
unfoldable pub print : Expr → Bytes → Bytes
unfolding op_text escape operand_text
print (compare key op value) r = operand_text key (op_text op (b'\'' ∷ escape value (b'\'' ∷ r)))
print (negate e) r = codes "not (" ++ print e (b')' ∷ r)
print (both a b) r = b'(' ∷ print a (codes ") and (" ++ print b (b')' ∷ r))
print (either a b) r = b'(' ∷ print a (codes ") or (" ++ print b (b')' ∷ r))

-- No key has the quote that ends it.
abbrev pub IsQuotable : Expr → Type 0
IsQuotable (compare (tag key) op value) = has_byte b'"' key ≡ false
IsQuotable (compare container op value) = Unit
IsQuotable (negate e) = IsQuotable e
IsQuotable (both a b) = IsQuotable a × IsQuotable b
IsQuotable (either a b) = IsQuotable a × IsQuotable b

-- What may follow a whole condition: nothing, or the parenthesis that closes it.
abbrev pub Stops : Bytes → Type 0
Stops [] = Unit
Stops (c ∷ s) = c ≡ b')'

-- A text that begins with another byte, which is no blank, has no keyword.
keyword_at_other :
    (w c : ℕ) (word s : Bytes)
    → lower_byte c == lower_byte w ≡ false
    → keyword_at (w ∷ word) (c ∷ s) ≡ false
unfolding keyword_at equal_fold to_lower same
keyword_at_other w c word s h = ground (arith, h)

keyword_other :
    (w c : ℕ) (word s : Bytes)
    → (c == 32 || c == 9) ≡ false
    → lower_byte c == lower_byte w ≡ false
    → keyword (w ∷ word) (c ∷ s) ≡ (false, c ∷ s)
unfolding keyword skip_ws
keyword_other w c word s h k = rw (h, keyword_at_other w c word s k) refl

pub or_stop : (r : Bytes) → Stops r → keyword (codes "or") r ≡ (false, r)
or_stop [] s = unfold keyword keyword_at skip_ws in refl
or_stop (c ∷ r) s = keyword_other 111 c (codes "r") r (ground (arith, s)) (ground (arith, s))

pub and_stop : (r : Bytes) → Stops r → keyword (codes "and") r ≡ (false, r)
and_stop [] s = unfold keyword keyword_at skip_ws in refl
and_stop (c ∷ r) s = keyword_other 97 c (codes "nd") r (ground (arith, s)) (ground (arith, s))

pub not_open : (s : Bytes) → keyword (codes "not") (b'(' ∷ s) ≡ (false, b'(' ∷ s)
not_open s = keyword_other 110 40 (codes "ot") s refl refl

pub not_open_blank : (s : Bytes) → keyword (codes "not") (32 ∷ b'(' ∷ s) ≡ (false, b'(' ∷ s)
unfolding keyword skip_ws keyword_at equal_fold to_lower same
not_open_blank s = ground arith

pub not_there : (s : Bytes) → keyword (codes "not") (codes "not (" ++ s) ≡ (true, 32 ∷ b'(' ∷ s)
unfolding keyword skip_ws keyword_at equal_fold to_lower same
not_there s = ground arith

pub and_there : (s : Bytes) → keyword (codes "and") (codes " and (" ++ s) ≡ (true, 32 ∷ b'(' ∷ s)
unfolding keyword skip_ws keyword_at equal_fold to_lower same
and_there s = ground arith

pub or_there : (s : Bytes) → keyword (codes "or") (codes "or (" ++ s) ≡ (true, 32 ∷ b'(' ∷ s)
unfolding keyword skip_ws keyword_at equal_fold to_lower same
or_there s = ground arith

pub no_and_there :
    (s : Bytes) → keyword (codes "and") (codes " or (" ++ s) ≡ (false, codes "or (" ++ s)
unfolding keyword skip_ws keyword_at equal_fold to_lower same
no_and_there s = ground arith

literal-cons : (c : ℕ) (t : Bytes) → c == b'\'' ≡ false → literal (c ∷ t) ≡ after_byte c (literal t)
unfolding literal
literal-cons c [] h = rw h refl
literal-cons c (d ∷ t) h = rw h refl

literal-end : (r : Bytes) → Stops r → literal (b'\'' ∷ r) ≡ some ([], r)
unfolding literal
literal-end [] s = refl
literal-end (c ∷ r) s = ground (arith, s)

literal-quotes : (t : Bytes) → literal (b'\'' ∷ b'\'' ∷ t) ≡ after_byte b'\'' (literal t)
unfolding literal
literal-quotes t = refl

literal-escape : (v r : Bytes) → Stops r → literal (escape v (b'\'' ∷ r)) ≡ some (v, r)
unfolding escape
literal-escape [] r s = literal-end r s
literal-escape (c ∷ v) r s = elim (Bool-cases (c == b'\'')) [
  | inl h ↦ rw (h, literal-quotes (escape v (b'\'' ∷ r)), literal-escape v r s) (ground (arith, h))
  | inr h ↦ rw (h, literal-cons c (escape v (b'\'' ∷ r)) h, literal-escape v r s) refl
]

up_to_quote-append :
    (k r : Bytes) → has_byte b'"' k ≡ false → up_to_quote (k ++ (b'"' ∷ r)) ≡ some (k, r)
unfolding up_to_quote has_byte
up_to_quote-append [] r h = refl
up_to_quote-append (c ∷ k) r h = ground (arith, h, up_to_quote-append k r)

abbrev with_value : Operand → TagOp → Bytes → Bytes → Parsed
with_value key op v r = with_literal key op (literal (escape v (b'\'' ∷ r)))

after_operand :
    (key : Operand) (op : TagOp) (v r : Bytes)
    → with_operand (read key (op_text op (b'\'' ∷ escape v (b'\'' ∷ r)))) ≡ with_value key op v r
unfolding with_operand with_op op_text op_of has_prefix skip_ws parse_value
after_operand key differs v r = refl
after_operand key at_least v r = refl
after_operand key at_most v r = refl
after_operand key equal v r = refl
after_operand key above v r = refl
after_operand key below v r = refl

no_ident : (op : TagOp) (t : Bytes) → begins_ident (op_text op t) ≡ false
unfolding op_text
no_ident differs t = refl
no_ident at_least t = refl
no_ident at_most t = refl
no_ident equal t = refl
no_ident above t = refl
no_ident below t = refl

parse_operand-text :
    (key : Operand) (op : TagOp) (v t : Bytes)
    → IsQuotable (compare key op v)
    → parse_operand (operand_text key (op_text op t)) ≡ read key (op_text op t)
unfolding parse_operand operand_text parameter_operand has_prefix
parse_operand-text (tag k) op v t q = rw (up_to_quote-append k (op_text op t) q) refl
parse_operand-text container op v t q = rw (no_ident op t) refl

-- A comparison begins with neither a blank nor a parenthesis nor a keyword.
abbrev pub Begins : Bytes → Type 0
Begins s = (skip_ws s ≡ s) × (keyword (codes "not") s ≡ (false, s)) × (opened s ≡ none)

pub operand_text-Begins : (key : Operand) (t : Bytes) → Begins (operand_text key t)
unfolding operand_text
operand_text-Begins (tag k) t =
    ((unfold skip_ws in refl), keyword_other 110 34 (codes "ot") (k ++ (b'"' ∷ t)) refl refl, refl)
operand_text-Begins container t = (
  (unfold skip_ws in refl),
  keyword_other 110 64 (codes "ot") (codes "container" ++ t) refl refl,
  refl,
)

pub parse_comparison-text :
    (key : Operand) (op : TagOp) (v r : Bytes)
    → IsQuotable (compare key op v)
    → Stops r
    → parse_comparison (print (compare key op v) r) ≡ ok (compare key op v) r
unfolding parse_comparison print
parse_comparison-text key op v r q s =
    let rest = op_text op (b'\'' ∷ escape v (b'\'' ∷ r)) in
    let blank : skip_ws (operand_text key rest) ≡ operand_text key rest =
      (operand_text-Begins key rest).0 in
    rw
      (
        blank,
        parse_operand-text key op v (b'\'' ∷ escape v (b'\'' ∷ r)) q,
        after_operand key op v r,
        literal-escape v r s,
      )
      refl
