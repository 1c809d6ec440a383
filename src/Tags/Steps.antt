-- ===== src/Tags/Steps.antt =====
-- The turns of the parser of tag conditions, as equations.
use mirror_cloud.Common.{ℕ, suc, ◌≡◌, refl, ap, ◌∙◌, Bool, true, false, Option, none, some}
use mirror_cloud.Bytes.{Bytes, codes}
use mirror_cloud.Tags.{
  Expr, both, either, Parsed, ok, and_then, skip_ws, keyword, parse_comparison, close, negated,
  opened, parse_or, or_loop, parse_and, and_loop, parse_unary,
}
use mirror_cloud.Tags.Print.{Stops, or_stop, and_stop}

abbrev pub or_turn : ℕ → Expr → Bool × Bytes → Parsed
or_turn f e k = elim k.0 [
  | true ↦ and_then (parse_and f k.1) (λ right. or_loop f (either e right))
  | false ↦ ok e k.1
]

pub or_loop-suc :
    (f : ℕ) (e : Expr) (s : Bytes) → or_loop (suc f) e s ≡ or_turn f e (keyword (codes "or") s)
unfolding parse_or
or_loop-suc f e s = refl

abbrev pub and_turn : ℕ → Expr → Bool × Bytes → Parsed
and_turn f e k = elim k.0 [
  | true ↦ and_then (parse_unary f k.1) (λ right. and_loop f (both e right))
  | false ↦ ok e k.1
]

pub and_loop-suc :
    (f : ℕ) (e : Expr) (s : Bytes) → and_loop (suc f) e s ≡ and_turn f e (keyword (codes "and") s)
unfolding parse_or
and_loop-suc f e s = refl

pub parse_or-suc : (f : ℕ) (s : Bytes) → parse_or (suc f) s ≡ and_then (parse_and f s) (or_loop f)
unfolding parse_or
parse_or-suc f s = refl

pub parse_and-suc :
    (f : ℕ) (s : Bytes) → parse_and (suc f) s ≡ and_then (parse_unary f s) (and_loop f)
unfolding parse_or
parse_and-suc f s = refl

abbrev pub enclosed : ℕ → Bytes → Option Bytes → Parsed
enclosed f s (some rest) = and_then (parse_or f rest) close
enclosed f s none = parse_comparison s

abbrev pub unary_turn : ℕ → Bool × Bytes → Parsed
unary_turn f k = elim k.0 [
  | true ↦ and_then (parse_unary f k.1) negated
  | false ↦ enclosed f k.1 (opened (skip_ws k.1))
]

pub parse_unary-suc :
    (f : ℕ) (s : Bytes) → parse_unary (suc f) s ≡ unary_turn f (keyword (codes "not") s)
unfolding parse_or
parse_unary-suc f s = refl

pub or_loop-stop : (f : ℕ) (e : Expr) (r : Bytes) → Stops r → or_loop (suc f) e r ≡ ok e r
or_loop-stop f e r s = or_loop-suc f e r ∙ ap (or_turn f e) (or_stop r s)

pub and_loop-stop : (f : ℕ) (e : Expr) (r : Bytes) → Stops r → and_loop (suc f) e r ≡ ok e r
and_loop-stop f e r s = and_loop-suc f e r ∙ ap (and_turn f e) (and_stop r s)

-- A condition that parseUnary takes is one that parseAnd and parseOr take.
pub parse_and-unary :
    (f : ℕ) (e : Expr) (t r : Bytes)
    → parse_unary (suc f) t ≡ ok e r
    → Stops r
    → parse_and (suc (suc f)) t ≡ ok e r
parse_and-unary f e t r h s =
    parse_and-suc (suc f) t ∙ ap (λ p. and_then p (and_loop (suc f))) h ∙ and_loop-stop f e r s

pub parse_or-unary :
    (f : ℕ) (e : Expr) (t r : Bytes)
    → parse_unary (suc f) t ≡ ok e r
    → Stops r
    → parse_or (suc (suc (suc f))) t ≡ ok e r
parse_or-unary f e t r h s =
    parse_or-suc (suc (suc f)) t
    ∙ ap (λ p. and_then p (or_loop (suc (suc f)))) (parse_and-unary f e t r h s)
    ∙ or_loop-stop (suc f) e r s
