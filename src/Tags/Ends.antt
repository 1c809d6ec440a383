-- ===== src/Tags/Ends.antt =====
-- The parser of tag conditions ends within the turns that it is given.
use mirror_cloud.Common.{
  ℕ, zero, suc, ◌+◌, ◌*◌, ◌≤◌, ◌≡◌, ◌≢◌, refl, Bool, true, false, ◌==◌, [], ◌∷◌, Option, none, some,
  length, if◌then◌else◌, arith,
}
use mirror_cloud.Bytes.{Bytes, codes}
use mirror_cloud.Tags.{
  out_of_fuel, Expr, both, either, Parsed, ok, failed, and_then, skip_ws, keyword, parse_comparison,
  close, negated, opened, parse_or, or_loop, parse_and, and_loop, parse_unary, invalid, at_end,
  finish, turns, parse_tag_expr,
}
use mirror_cloud.Tags.Lengths.{length-skip_ws, length-keyword}
use mirror_cloud.Tags.PartsEnd.{Ends, Ends-mono, parse_comparison-Ends, close-Ends, and_then-Ends}

-- With five turns for each byte and a few more, each parser ends.
record AllEnd (f : ℕ) : Type 0 where
  or_ends : (s : Bytes) → 5 * length s + 3 ≤ f → Ends (length s) (parse_or f s)
  or_loop_ends : (e : Expr) (s : Bytes) → 5 * length s + 1 ≤ f → Ends (length s) (or_loop f e s)
  and_ends : (s : Bytes) → 5 * length s + 2 ≤ f → Ends (length s) (parse_and f s)
  and_loop_ends : (e : Expr) (s : Bytes) → 5 * length s + 1 ≤ f → Ends (length s) (and_loop f e s)
  unary_ends : (s : Bytes) → 5 * length s + 1 ≤ f → Ends (length s) (parse_unary f s)

-- The loops, whichever the keyword and the operand.
Ends-turn :
    (n : ℕ) (b : Bool) (r q : Parsed)
    → (b ≡ true → Ends n r)
    → (b ≡ false → Ends n q)
    → Ends n (elim b [ true ↦ r | false ↦ q ])
Ends-turn n true r q h k = h refl
Ends-turn n false r q h k = k refl

taken :
    (word s : Bytes)
    → (keyword word s).0 ≡ true
    → length word + length (keyword word s).1 ≤ length s
taken word s h = ground (arith, h, length-keyword word s)

left : (word s : Bytes) → length (keyword word s).1 ≤ length s
left word s = ground (arith, length-keyword word s)

abbrev OpenShorter : ℕ → Option Bytes → Type 0
OpenShorter n none = Unit
OpenShorter n (some rest) = suc (length rest) ≤ n

OpenShorter-if :
    (n : ℕ) (b : Bool) (rest : Bytes)
    → suc (length rest) ≤ n
    → OpenShorter n (if b then some rest else none)
OpenShorter-if n true rest h = h
OpenShorter-if n false rest h = tt

opened-OpenShorter : (n : ℕ) (s : Bytes) → length s ≤ n → OpenShorter n (opened s)
opened-OpenShorter n [] h = tt
opened-OpenShorter n (c ∷ s) h = OpenShorter-if n (c == b'(') s (omega (arith, h))

module _ (f : ℕ) (ih : AllEnd f) where
  or_step : (s : Bytes) → 5 * length s + 3 ≤ suc f → Ends (length s) (parse_or (suc f) s)
  unfolding parse_or
  or_step s h =
      and_then-Ends (length s) (length s) (parse_and f s) (or_loop f)
        (ih.and_ends s (omega (arith, h)))
        (λ e t l.
          Ends-mono (length t) (length s) (or_loop f e t) l
            (ih.or_loop_ends e t (omega (arith, h, l))))

  and_step : (s : Bytes) → 5 * length s + 2 ≤ suc f → Ends (length s) (parse_and (suc f) s)
  unfolding parse_or
  and_step s h =
      and_then-Ends (length s) (length s) (parse_unary f s) (and_loop f)
        (ih.unary_ends s (omega (arith, h)))
        (λ e t l.
          Ends-mono (length t) (length s) (and_loop f e t) l
            (ih.and_loop_ends e t (omega (arith, h, l))))

  or_loop_step :
      (e : Expr) (s : Bytes) → 5 * length s + 1 ≤ suc f → Ends (length s) (or_loop (suc f) e s)
  unfolding parse_or
  or_loop_step e s h =
      Ends-turn (length s) (keyword (codes "or") s).0 _ _
        (λ k.
          let t = (keyword (codes "or") s).1 in
          let short : 2 + length t ≤ length s = taken (codes "or") s k in
          and_then-Ends (length t) (length s) (parse_and f t) (λ right. or_loop f (either e right))
            (ih.and_ends t (omega (arith, h, short)))
            (λ right u l.
              Ends-mono (length u) (length s) (or_loop f (either e right) u)
                (omega (arith, l, short))
                (ih.or_loop_ends (either e right) u (omega (arith, h, l, short)))))
        (λ k. left (codes "or") s)

  and_loop_step :
      (e : Expr) (s : Bytes) → 5 * length s + 1 ≤ suc f → Ends (length s) (and_loop (suc f) e s)
  unfolding parse_or
  and_loop_step e s h =
      Ends-turn (length s) (keyword (codes "and") s).0 _ _
        (λ k.
          let t = (keyword (codes "and") s).1 in
          let short : 3 + length t ≤ length s = taken (codes "and") s k in
          and_then-Ends (length t) (length s) (parse_unary f t) (λ right. and_loop f (both e right))
            (ih.unary_ends t (omega (arith, h, short)))
            (λ right u l.
              Ends-mono (length u) (length s) (and_loop f (both e right) u)
                (omega (arith, l, short))
                (ih.and_loop_ends (both e right) u (omega (arith, h, l, short)))))
        (λ k. left (codes "and") s)

  inside :
      (s t : Bytes) (o : Option Bytes)
      → 5 * length s + 1 ≤ suc f
      → length t ≤ length s
      → OpenShorter (length t) o
      → Ends
          (length s)
          (elim o [ some rest ↦ and_then (parse_or f rest) close | none ↦ parse_comparison t ])
  inside s t none h l m =
      Ends-mono (length t) (length s) (parse_comparison t) l (parse_comparison-Ends t)
  inside s t (some u) h l m =
      and_then-Ends (length u) (length s) (parse_or f u) close
        (ih.or_ends u (omega (arith, h, l, m)))
        (λ e v k. close-Ends (length s) e v (omega (arith, k, l, m)))

  unary_step : (s : Bytes) → 5 * length s + 1 ≤ suc f → Ends (length s) (parse_unary (suc f) s)
  unfolding parse_or
  unary_step s h =
      Ends-turn (length s) (keyword (codes "not") s).0 _ _
        (λ k.
          let t = (keyword (codes "not") s).1 in
          let short : 3 + length t ≤ length s = taken (codes "not") s k in
          and_then-Ends (length t) (length s) (parse_unary f t) negated
            (ih.unary_ends t (omega (arith, h, short))) (λ e u l. omega (arith, l, short)))
        (λ k.
          let t = (keyword (codes "not") s).1 in
          inside s t (opened (skip_ws t)) h (left (codes "not") s)
            (opened-OpenShorter (length t) (skip_ws t) (length-skip_ws t)))

all_end : (f : ℕ) → AllEnd f
all_end zero = record {
  or_ends = λ s h. absurd (omega (arith, h));
  or_loop_ends = λ e s h. absurd (omega (arith, h));
  and_ends = λ s h. absurd (omega (arith, h));
  and_loop_ends = λ e s h. absurd (omega (arith, h));
  unary_ends = λ s h. absurd (omega (arith, h));
}
all_end (suc f) =
    let ih = all_end f in
    record {
      or_ends = or_step f ih;
      or_loop_ends = or_loop_step f ih;
      and_ends = and_step f ih;
      and_loop_ends = and_loop_step f ih;
      unary_ends = unary_step f ih;
    }

finish-Ends : (n : ℕ) (r : Parsed) → Ends n r → finish r ≢ invalid out_of_fuel
unfolding finish
finish-Ends n (failed e) h = λ k. h (cc k)
finish-Ends n (ok e s) h = ended (skip_ws s)
  where
    ended : (t : Bytes) → at_end e t ≢ invalid out_of_fuel
    ended [] = λ k. cc
    ended (_ ∷ _) = λ k. cc

-- Parsing a tag condition ends within the turns of the model, for any text.
pub parse_tag_expr_ends : (s : Bytes) → parse_tag_expr s ≢ invalid out_of_fuel
unfolding parse_tag_expr
parse_tag_expr_ends s =
    finish-Ends (length s) (parse_or (turns s) s) ((all_end (turns s)).or_ends s (omega arith))
