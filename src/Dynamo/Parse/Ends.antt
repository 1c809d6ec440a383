-- ===== src/Dynamo/Parse/Ends.antt =====
-- parse ends: its operands are shorter than the text.
use mirror_cloud.Common.{
  ℕ, zero, suc, ◌+◌, ◌-◌, ◌≤◌, ◌<◌, ◌≡◌, refl, ap, true, ◌&&◌, not, List, [], ◌∷◌, Option, none,
  some, All, length, length-drop, Bool-cases, inl, inr, arith,
}
use mirror_cloud.Common.Int.{pos}
use mirror_cloud.Bytes.{Bytes, codes, has_prefix, trim_prefix, is_empty, cut}
use mirror_cloud.Bytes.Words.{trim_space}
use mirror_cloud.Dynamo.Split.{index_top, strip_parens, before_close, split_args}
use mirror_cloud.Dynamo.Split.Lengths.{
  length-strip_parens, length-before_close, AtMost, split_args-AtMost, length-trim_prefix,
  length-trim_suffix, length-trim_space, length-cut_found, length-has_prefix, index_top-Parts,
  Parts,
}
use mirror_cloud.Dynamo.Parse.{
  Node, call, Form, plain, operation, or_form, binary_form, between_of, between_ends, between_rest,
  between_parts, not_form, in_of, call_of, named_call, call_parts, first_op, connectives,
  comparisons, sums, in_list, form_of, nodes_of, node_of, parse,
}

abbrev AllShorter : ℕ → List Bytes → Type 0
AllShorter n ps = All (λ p. length p < n) ps

-- The operands of a form are shorter than a text of this length.
abbrev Small : ℕ → Form → Type 0
Small n (plain s) = Unit
Small n (operation op parts) = AllShorter n parts

abbrev SmallIf : ℕ → Option Form → Type 0
SmallIf n none = Unit
SmallIf n (some f) = Small n f

or_Small : (n : ℕ) (o : Option Form) (f : Form) → SmallIf n o → Small n f → Small n (or_form o f)
or_Small n none f h k = k
or_Small n (some g) f h k = h

AllShorter-lt : (m n : ℕ) (ps : List Bytes) → m < n → AtMost m ps → AllShorter n ps
AllShorter-lt m n [] h a = tt
AllShorter-lt m n (p ∷ ps) h (a, rest) = (omega arith, AllShorter-lt m n ps h rest)

-- Operators that are no empty texts.
abbrev Proper : List Bytes → Type 0
Proper ops = All (λ op. 1 ≤ length op) ops

abbrev SmallParts : ℕ → Option (Bytes × Bytes × Bytes) → Type 0
SmallParts n none = Unit
SmallParts n (some (op, left, right)) = (length left < n) × (length right < n)

first_op_small :
    (ops : List Bytes) (s : Bytes) → Proper ops → SmallParts (length s) (first_op ops s)
unfolding first_op
first_op_small [] s h = tt
first_op_small (op ∷ ops) s (h, rest) =
    at_op (index_top op (pos 0) s) (index_top-Parts op (pos 0) s) (first_op_small ops s rest)
  where
    at_op :
        (o : Option (Bytes × Bytes))
        → Parts op s o
        → SmallParts (length s) (first_op ops s)
        → SmallParts
            (length s)
            (elim o [ some (left, right) ↦ some (op, left, right) | none ↦ first_op ops s ])
    at_op none p later = later
    at_op (some (left, right)) p later = (omega arith, omega arith)

binary_small :
    (n : ℕ) (o : Option (Bytes × Bytes × Bytes)) → SmallParts n o → SmallIf n (binary_form o)
binary_small n none h = tt
binary_small n (some (op, left, right)) (h, k) = (h, (k, tt))

ops_small :
    (ops : List Bytes) (s : Bytes) → Proper ops → SmallIf (length s) (binary_form (first_op ops s))
ops_small ops s h = binary_small (length s) (first_op ops s) (first_op_small ops s h)

trimmed_length :
    (p s : Bytes) → has_prefix p s ≡ true → length (trim_prefix p s) ≡ length s - length p
unfolding trim_prefix
trimmed_length p s h = rw h (length-drop (length p) s)

not_small : (s : Bytes) → SmallIf (length s) (not_form s)
unfolding not_form
not_small s = elim (Bool-cases (has_prefix (codes "NOT ") s)) [
  | inl h ↦ rw h (shorter h, tt)
  | inr h ↦ rw h tt
]
  where
    shorter : has_prefix (codes "NOT ") s ≡ true → length (trim_prefix (codes "NOT ") s) < length s
    shorter h =
        omega (arith, trimmed_length (codes "NOT ") s h, length-has_prefix (codes "NOT ") s h)

between_ends_small :
    (n : ℕ) (left rest : Bytes) (o : Option (Bytes × Bytes))
    → length left < n
    → length rest < n
    → Parts (codes " AND ") rest o
    → SmallIf n (between_of (between_ends left o))
between_ends_small n left rest none h k p = tt
between_ends_small n left rest (some (lo, hi)) h k p = (h, (omega arith, (omega arith, tt)))

between_small : (s : Bytes) → SmallIf (length s) (between_of (between_parts s))
unfolding between_parts
between_small s =
    at_rest (index_top (codes " BETWEEN ") (pos 0) s)
      (index_top-Parts (codes " BETWEEN ") (pos 0) s)
  where
    at_rest :
        (o : Option (Bytes × Bytes))
        → Parts (codes " BETWEEN ") s o
        → SmallIf (length s) (between_of (between_rest o))
    at_rest none p = tt
    at_rest (some (left, rest)) p =
        between_ends_small (length s) left rest (index_top (codes " AND ") (pos 0) rest)
          (omega arith) (omega arith) (index_top-Parts (codes " AND ") (pos 0) rest)

length-in_list : (s : Bytes) → length (in_list s) ≤ length s
length-in_list s = omega (
  arith,
  length-trim_suffix (codes ")") (trim_prefix (codes "(") (trim_space s)),
  length-trim_prefix (codes "(") (trim_space s),
  length-trim_space s,
)

in_small :
    (s : Bytes) (o : Option (Bytes × Bytes))
    → Parts (codes " IN ") s o
    → SmallIf (length s) (in_of o)
unfolding in_of
in_small s none p = tt
in_small s (some (left, rest)) p = (
  omega arith,
  AllShorter-lt (length (in_list rest)) (length s) (split_args (in_list rest))
      (omega (arith, length-in_list rest)) (split_args-AtMost (in_list rest)),
)

call_small : (s : Bytes) → SmallIf (length s) (call_of (call_parts s))
unfolding call_parts
call_small s = elim (Bool-cases ((cut b'(' s).2 && not (is_empty (cut b'(' s).0))) [
  | inl h ↦ rw h (
      named (before_close (cut b'(' s).1) (length-before_close (cut b'(' s).1)
        (length-cut_found b'(' s (ground arith)))
  | inr h ↦ rw h (unfold call_of in tt)
]
  where
    named :
        (o : Option Bytes)
        → ((inner : Bytes) → o ≡ some inner → suc (length inner) ≤ length (cut b'(' s).1)
        → length (cut b'(' s).0 + length (cut b'(' s).1 < length s
        → SmallIf (length s) (call_of (named_call (cut b'(' s).0 o))
    named none h k = unfold call_of in tt
    named (some inner) h k =
        unfold call_of in
        AllShorter-lt (length inner) (length s) (split_args inner) (omega (arith, h inner refl, k))
          (split_args-AtMost inner)

form_of-Small : (s : Bytes) → Small (length s) (form_of s)
unfolding form_of
form_of-Small s =
    let n = length s in
    or_Small n _ _ (between_small s) (
      or_Small n _ _ (ops_small connectives s (omega arith)) (
        or_Small n _ _ (not_small s) (
          or_Small n _ _
            (in_small s (index_top (codes " IN ") (pos 0) s)
              (index_top-Parts (codes " IN ") (pos 0) s))
            (or_Small n _ _ (ops_small comparisons s (omega arith)) (
              or_Small n _ _ (ops_small sums s (omega arith))
                (or_Small n (call_of (call_parts s)) (plain (trim_space s)) (call_small s) tt))))))

AllShorter-mono : (m n : ℕ) (ps : List Bytes) → m ≤ n → AllShorter m ps → AllShorter n ps
AllShorter-mono m n [] h a = tt
AllShorter-mono m n (p ∷ ps) h (a, rest) = (omega arith, AllShorter-mono m n ps h rest)

Small-mono : (m n : ℕ) (f : Form) → m ≤ n → Small m f → Small n f
Small-mono m n (plain s) h a = tt
Small-mono m n (operation op ps) h a = AllShorter-mono m n ps h a

nodes_agree :
    (n : ℕ) (p q : Bytes → Node) (ps : List Bytes)
    → ((s : Bytes) → length s < n → p s ≡ q s)
    → AllShorter n ps
    → nodes_of p ps ≡ nodes_of q ps
unfolding nodes_of
nodes_agree n p q [] h a = refl
nodes_agree n p q (s ∷ ss) h (a, rest) = cc (h s a, nodes_agree n p q ss h rest)

node_agrees :
    (n : ℕ) (p q : Bytes → Node) (f : Form)
    → ((s : Bytes) → length s < n → p s ≡ q s)
    → Small n f
    → node_of p f ≡ node_of q f
unfolding node_of
node_agrees n p q (plain s) h a = refl
node_agrees n p q (operation op ps) h a = ap (call op) (nodes_agree n p q ps h a)

-- Fuel above the length of the text is enough for parse: any two such amounts give the same
-- expression.
pub parse_fuel : (f g : ℕ) (s : Bytes) → length s < f → length s < g → parse f s ≡ parse g s
unfolding parse
parse_fuel zero g s h k = absurd (omega arith)
parse_fuel (suc f) zero s h k = absurd (omega arith)
parse_fuel (suc f) (suc g) s h k =
    let inner = strip_parens (suc (length s)) s in
    node_agrees (length s) (parse f) (parse g) (form_of inner)
      (λ t l. parse_fuel f g t (omega arith) (omega arith))
      (Small-mono (length inner) (length s) (form_of inner) (length-strip_parens (suc (length s)) s)
        (form_of-Small inner))
