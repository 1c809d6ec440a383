-- ===== src/Tags/RoundTrip.antt =====
-- Printing a tag condition and parsing it again.
use mirror_cloud.Common.{
  ℕ, suc, ◌+◌, ◌*◌, ◌-◌, ◌≤◌, ◌≡◌, refl, ap, subst, ◌∙◌, [], ◌∷◌, ◌++◌, length, length-append,
  arith,
}
use mirror_cloud.Bytes.{Bytes, codes}
use mirror_cloud.Tags.{
  Operand, tag, container, TagOp, differs, at_least, at_most, equal, above, below, Expr, compare,
  negate, both, either, ok, and_then, skip_ws, keyword, close, negated, opened, parse_or, or_loop,
  parse_and, and_loop, parse_unary, parsed, finish, turns, parse_tag_expr,
}
use mirror_cloud.Tags.Print.{
  print, operand_text, op_text, escape, IsQuotable, Stops, Begins, not_open, not_open_blank,
  not_there, and_there, or_there, no_and_there, operand_text-Begins, parse_comparison-text,
}
use mirror_cloud.Tags.Steps.{
  or_turn, or_loop-suc, and_turn, and_loop-suc, parse_or-suc, parse_and-suc, enclosed, unary_turn,
  parse_unary-suc, or_loop-stop, and_loop-stop, parse_and-unary, parse_or-unary,
}

-- Turns enough for a condition.
abbrev need : Expr → ℕ
need (compare key op v) = 3
need (negate e) = need e + 5
need (both a b) = need a + need b + 5
need (either a b) = need a + need b + 5

abbrev Parses : Expr → Type 0
Parses e = (f : ℕ) (r : Bytes) → need e ≤ f → Stops r → parse_or f (print e r) ≡ ok e r

-- A condition in parentheses, with a blank before it or none.
opened_text :
    (f : ℕ) (e : Expr) (r : Bytes)
    → Parses e
    → need e ≤ f
    → enclosed f (b'(' ∷ print e (b')' ∷ r)) (opened (skip_ws (b'(' ∷ print e (b')' ∷ r)))) ≡ ok e r
unfolding skip_ws close
opened_text f e r p h = ap (λ q. and_then q close) (p f (b')' ∷ r) h refl)

parse_unary-open :
    (f : ℕ) (e : Expr) (r : Bytes)
    → Parses e
    → need e ≤ f
    → parse_unary (suc f) (b'(' ∷ print e (b')' ∷ r)) ≡ ok e r
parse_unary-open f e r p h =
    parse_unary-suc f (b'(' ∷ print e (b')' ∷ r))
    ∙ ap (unary_turn f) (not_open (print e (b')' ∷ r)))
    ∙ opened_text f e r p h

parse_unary-blank :
    (f : ℕ) (e : Expr) (r : Bytes)
    → Parses e
    → need e ≤ f
    → parse_unary (suc f) (32 ∷ b'(' ∷ print e (b')' ∷ r)) ≡ ok e r
parse_unary-blank f e r p h =
    parse_unary-suc f (32 ∷ b'(' ∷ print e (b')' ∷ r))
    ∙ ap (unary_turn f) (not_open_blank (print e (b')' ∷ r)))
    ∙ opened_text f e r p h

negate-Parses :
    (e : Expr)
    → Parses e
    → (f : ℕ) (r : Bytes) → need e ≤ f
    → Stops r
    → parse_or (suc (suc (suc (suc f)))) (print (negate e) r) ≡ ok (negate e) r
unfolding print
negate-Parses e p f r h s =
    let t : Bytes = print e (b')' ∷ r) in
    parse_or-unary (suc f) (negate e) (codes "not (" ++ t) r
      (parse_unary-suc (suc f) (codes "not (" ++ t)
        ∙ ap (unary_turn (suc f)) (not_there t)
        ∙ ap (λ q. and_then q negated) (parse_unary-blank f e r p h))
      s

both-Parses :
    (a b : Expr)
    → Parses a
    → Parses b
    → (f : ℕ) (r : Bytes) → need a ≤ f
    → need b ≤ f
    → Stops r
    → parse_or (suc (suc (suc (suc f)))) (print (both a b) r) ≡ ok (both a b) r
unfolding print
both-Parses a b p q f r h k s =
    let t : Bytes = print b (b')' ∷ r) in
    let whole : Bytes = b'(' ∷ print a (codes ") and (" ++ t) in
    let one : parse_unary (suc (suc f)) whole ≡ ok a (codes " and (" ++ t) =
      parse_unary-open (suc f) a (codes " and (" ++ t) p (omega (arith, h)) in
    let two : and_loop (suc (suc f)) a (codes " and (" ++ t) ≡ ok (both a b) r =
      and_loop-suc (suc f) a (codes " and (" ++ t)
      ∙ ap (and_turn (suc f) a) (and_there t)
      ∙ ap (λ x. and_then x (λ right. and_loop (suc f) (both a right)))
          (parse_unary-blank f b r q k)
      ∙ and_loop-stop f (both a b) r s in
    parse_or-suc (suc (suc (suc f))) whole
    ∙ ap (λ x. and_then x (or_loop (suc (suc (suc f)))))
        (parse_and-suc (suc (suc f)) whole
          ∙ ap (λ x. and_then x (and_loop (suc (suc f)))) one
          ∙ two)
    ∙ or_loop-stop (suc (suc f)) (both a b) r s

either-Parses :
    (a b : Expr)
    → Parses a
    → Parses b
    → (f : ℕ) (r : Bytes) → need a ≤ f
    → need b ≤ f
    → Stops r
    → parse_or (suc (suc (suc (suc f)))) (print (either a b) r) ≡ ok (either a b) r
unfolding print
either-Parses a b p q f r h k s =
    let t : Bytes = print b (b')' ∷ r) in
    let whole : Bytes = b'(' ∷ print a (codes ") or (" ++ t) in
    let one : parse_unary (suc (suc f)) whole ≡ ok a (codes " or (" ++ t) =
      parse_unary-open (suc f) a (codes " or (" ++ t) p (omega (arith, h)) in
    let two : and_loop (suc (suc f)) a (codes " or (" ++ t) ≡ ok a (codes "or (" ++ t) =
      and_loop-suc (suc f) a (codes " or (" ++ t) ∙ ap (and_turn (suc f) a) (no_and_there t) in
    let right : parse_and (suc (suc f)) (32 ∷ b'(' ∷ t) ≡ ok b r =
      parse_and-unary f b (32 ∷ b'(' ∷ t) r (parse_unary-blank f b r q k) s in
    let three : or_loop (suc (suc (suc f))) a (codes "or (" ++ t) ≡ ok (either a b) r =
      or_loop-suc (suc (suc f)) a (codes "or (" ++ t)
      ∙ ap (or_turn (suc (suc f)) a) (or_there t)
      ∙ ap (λ x. and_then x (λ y. or_loop (suc (suc f)) (either a y))) right
      ∙ or_loop-stop (suc f) (either a b) r s in
    parse_or-suc (suc (suc (suc f))) whole
    ∙ ap (λ x. and_then x (or_loop (suc (suc (suc f)))))
        (parse_and-suc (suc (suc f)) whole
          ∙ ap (λ x. and_then x (and_loop (suc (suc f)))) one
          ∙ two)
    ∙ three

text-Begins : (key : Operand) (op : TagOp) (v r : Bytes) → Begins (print (compare key op v) r)
unfolding print
text-Begins key op v r = operand_text-Begins key (op_text op (b'\'' ∷ escape v (b'\'' ∷ r)))

taken_text :
    (key : Operand) (op : TagOp) (v r : Bytes) (f : ℕ)
    → IsQuotable (compare key op v)
    → Stops r
    → unary_turn f (keyword (codes "not") (print (compare key op v) r)) ≡ ok (compare key op v) r
taken_text key op v r f q s =
    let (blank, word, closed) = text-Begins key op v r in
    ap (unary_turn f) word
    ∙ ap (enclosed f (print (compare key op v) r)) (ap opened blank ∙ closed)
    ∙ parse_comparison-text key op v r q s

compare-Parses :
    (key : Operand) (op : TagOp) (v : Bytes)
    → IsQuotable (compare key op v)
    → (f : ℕ) (r : Bytes) → Stops r
    → parse_or (suc (suc (suc f))) (print (compare key op v) r) ≡ ok (compare key op v) r
compare-Parses key op v q f r s =
    parse_or-unary f (compare key op v) (print (compare key op v) r) r
      (parse_unary-suc f (print (compare key op v) r) ∙ taken_text key op v r f q s) s

four : (f : ℕ) → 4 ≤ f → suc (suc (suc (suc (f - 4)))) ≡ f
four f h = omega arith

three_turns : (f : ℕ) → 3 ≤ f → suc (suc (suc (f - 3))) ≡ f
three_turns f h = omega arith

print-Parses : (e : Expr) → IsQuotable e → Parses e
print-Parses (compare key op v) q = λ f r h s.
    subst (λ (g : ℕ). parse_or g (print (compare key op v) r) ≡ ok (compare key op v) r)
      (three_turns f h) (compare-Parses key op v q (f - 3) r s)
print-Parses (negate e) q = λ f r h s.
    subst (λ (g : ℕ). parse_or g (print (negate e) r) ≡ ok (negate e) r) (four f (omega (arith, h)))
      (negate-Parses e (print-Parses e q) (f - 4) r (omega (arith, h)) s)
print-Parses (both a b) (p, q) = λ f r h s.
    subst (λ (g : ℕ). parse_or g (print (both a b) r) ≡ ok (both a b) r) (four f (omega (arith, h)))
      (both-Parses a b (print-Parses a p) (print-Parses b q) (f - 4) r (omega (arith, h))
        (omega (arith, h)) s)
print-Parses (either a b) (p, q) = λ f r h s.
    subst (λ (g : ℕ). parse_or g (print (either a b) r) ≡ ok (either a b) r)
      (four f (omega (arith, h)))
      (either-Parses a b (print-Parses a p) (print-Parses b q) (f - 4) r (omega (arith, h))
        (omega (arith, h)) s)

length-escape : (v r : Bytes) → length r ≤ length (escape v r)
unfolding escape
length-escape [] r = omega arith
length-escape (c ∷ v) r = ground (arith, length-escape v r)

length-op_text : (op : TagOp) (r : Bytes) → length r ≤ length (op_text op r)
unfolding op_text
length-op_text differs r = omega arith
length-op_text at_least r = omega arith
length-op_text at_most r = omega arith
length-op_text equal r = omega arith
length-op_text above r = omega arith
length-op_text below r = omega arith

length-operand_text : (key : Operand) (r : Bytes) → length r ≤ length (operand_text key r)
unfolding operand_text
length-operand_text (tag k) r = omega (arith, length-append k (b'"' ∷ r))
length-operand_text container r = omega arith

-- Five turns for each byte of the text are enough.
length-print : (e : Expr) (r : Bytes) → need e + 5 * length r ≤ 5 * length (print e r)
unfolding print
length-print (compare key op v) r =
    let t : Bytes = escape v (b'\'' ∷ r) in
    omega (
      arith,
      length-escape v (b'\'' ∷ r),
      length-op_text op (b'\'' ∷ t),
      length-operand_text key (op_text op (b'\'' ∷ t)),
    )
length-print (negate e) r = omega (arith, length-print e (b')' ∷ r))
length-print (both a b) r =
    omega (arith, length-print b (b')' ∷ r), length-print a (codes ") and (" ++ print b (b')' ∷ r)))
length-print (either a b) r =
    omega (arith, length-print b (b')' ∷ r), length-print a (codes ") or (" ++ print b (b')' ∷ r)))

-- Parsing a printed tag condition gives the condition back, for every condition whose keys hold no
-- double quote: it is printed with parentheses round each operand of and, or and not, keys in
-- double quotes and literals in single ones, with the quotes in them doubled.
pub parse_tag_expr-print : (e : Expr) → IsQuotable e → parse_tag_expr (print e []) ≡ parsed e
unfolding parse_tag_expr finish skip_ws
parse_tag_expr-print e q =
    ap finish (print-Parses e q (turns (print e [])) [] (omega (arith, length-print e [])) tt)
