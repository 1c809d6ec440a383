-- ===== src/Dynamo/Split/Lengths.antt =====
-- Taking a text apart gives shorter texts.
use mathlib.Core.List.{reverse, reverse_aux}
use mirror_cloud.Common.{
  ℕ, zero, suc, ◌+◌, ◌-◌, ◌≤◌, ◌<◌, ◌≡◌, refl, subst, Bool, true, false, ◌&&◌, List, [], ◌∷◌,
  Option, none, some, All, map, length, length-drop, length-take, Bool-cases, inl, inr,
  if◌then◌else◌, ◌==◌, arith,
}
use mirror_cloud.Common.Int.{ℤ, pos}
use mirror_cloud.Bytes.{Bytes, has_prefix, trim_prefix, cut}
use mirror_cloud.Bytes.Fold.{trim_suffix}
use mirror_cloud.Bytes.Words.{trim_left, trim_space, in_first}
use mirror_cloud.Dynamo.Split.{
  depth_after, at_top, after_byte, index_top, closes_last, before_close, unwrap_trimmed,
  strip_parens, comma_pieces, split_args,
}

pub length-has_prefix : (p s : Bytes) → has_prefix p s ≡ true → length p ≤ length s
unfolding has_prefix
length-has_prefix [] s h = omega arith
length-has_prefix (a ∷ p) [] h = cc
length-has_prefix (a ∷ p) (b ∷ s) h = ground (arith, length-has_prefix p s)

length-reverse_aux : (s t : Bytes) → length (reverse_aux s t) ≡ length s + length t
length-reverse_aux [] t = omega arith
length-reverse_aux (c ∷ s) t = omega (arith, length-reverse_aux s (c ∷ t))

length-reverse : (s : Bytes) → length (reverse s) ≡ length s
length-reverse s = omega (arith, length-reverse_aux s [])

length-trim_left : (s : Bytes) → length (trim_left s) ≤ length s
unfolding trim_left
length-trim_left [] = omega arith
length-trim_left (c ∷ s) = ground (arith, length-trim_left s)

pub length-trim_space : (s : Bytes) → length (trim_space s) ≤ length s
unfolding trim_space
length-trim_space s = omega (
  arith,
  length-reverse (trim_left (reverse (trim_left s))),
  length-trim_left (reverse (trim_left s)),
  length-reverse (trim_left s),
  length-trim_left s,
)

-- The parts on both sides of an operator and the operator make up the text.
abbrev pub Parts : Bytes → Bytes → Option (Bytes × Bytes) → Type 0
Parts op s none = Unit
Parts op s (some (left, right)) = length left + length op + length right ≡ length s

Parts-after :
    (op : Bytes) (c : ℕ) (s : Bytes) (o : Option (Bytes × Bytes))
    → Parts op s o
    → Parts op (c ∷ s) (after_byte c o)
Parts-after op c s none h = tt
Parts-after op c s (some (left, right)) h = omega (arith, h)

pub index_top-Parts : (op : Bytes) (d : ℤ) (s : Bytes) → Parts op s (index_top op d s)
unfolding index_top
index_top-Parts op d [] = tt
index_top-Parts op d (c ∷ s) =
    elim (Bool-cases (at_top (depth_after c d) && has_prefix op (c ∷ s))) [
      | inl h ↦
          rw h
            (omega (arith, length-drop (length op) (c ∷ s), length-has_prefix op (c ∷ s) (both h)))
      | inr h ↦ rw h (
          Parts-after op c s (index_top op (depth_after c d) s)
            (index_top-Parts op (depth_after c d) s))
    ]
  where
    both : at_top (depth_after c d) && has_prefix op (c ∷ s) ≡ true → has_prefix op (c ∷ s) ≡ true
    both h = ground arith

pub length-index_top :
    (op : Bytes) (d : ℤ) (s left right : Bytes)
    → index_top op d s ≡ some (left, right)
    → length left + length op + length right ≡ length s
length-index_top op d s left right h = subst (Parts op s) (h) (index_top-Parts op d s)

-- A text is longer than what stands in it before or inside something, if there is such.
abbrev Longer : Bytes → Option Bytes → Type 0
Longer s none = Unit
Longer s (some inner) = suc (length inner) ≤ length s

Longer-cons :
    (c : ℕ) (s : Bytes) (o : Option Bytes)
    → Longer s o
    → Longer (c ∷ s) (elim o [ none ↦ none | some p ↦ some (c ∷ p) ])
Longer-cons c s none h = tt
Longer-cons c s (some p) h = omega (arith, h)

Longer-if :
    (b : Bool) (s : Bytes) (o : Option Bytes) → Longer s o → Longer s (if b then o else none)
Longer-if true s o h = h
Longer-if false s o h = tt

before_close-Longer : (s : Bytes) → Longer s (before_close s)
unfolding before_close
before_close-Longer [] = tt
before_close-Longer (c ∷ []) = Longer-if (c == b')') (c ∷ []) (some []) (omega arith)
before_close-Longer (c ∷ d ∷ s) =
    Longer-cons c (d ∷ s) (before_close (d ∷ s)) (before_close-Longer (d ∷ s))

pub length-before_close :
    (s inner : Bytes) → before_close s ≡ some inner → suc (length inner) ≤ length s
length-before_close s inner h = subst (Longer s) (h) (before_close-Longer s)

trimmed :
    (c : ℕ) (s : Bytes) (o : Option Bytes)
    → Longer s o
    → Longer (c ∷ s) (elim o [ none ↦ none | some inner ↦ some (trim_space inner) ])
trimmed c s none h = tt
trimmed c s (some inner) h = omega (arith, h, length-trim_space inner)

unwrap_trimmed-Longer : (s : Bytes) → Longer s (unwrap_trimmed s)
unfolding unwrap_trimmed
unwrap_trimmed-Longer [] = tt
unwrap_trimmed-Longer (c ∷ s) =
    Longer-if (c == b'(' && closes_last (pos 0) (c ∷ s)) (c ∷ s) _
      (trimmed c s (before_close s) (before_close-Longer s))

-- Whatever the fuel, taking parentheses off makes no text longer.
pub length-strip_parens : (fuel : ℕ) (s : Bytes) → length (strip_parens fuel s) ≤ length s
unfolding strip_parens
length-strip_parens zero s = omega arith
length-strip_parens (suc fuel) s =
    stripped (unwrap_trimmed (trim_space s)) (unwrap_trimmed-Longer (trim_space s))
      (length-strip_parens fuel)
  where
    stripped :
        (o : Option Bytes)
        → Longer (trim_space s) o
        → ((t : Bytes) → length (strip_parens fuel t) ≤ length t)
        → length (elim o [ none ↦ trim_space s | some inner ↦ strip_parens fuel inner ]) ≤ length s
    stripped none h ih = length-trim_space s
    stripped (some inner) h ih = omega (arith, h, length-trim_space s, ih inner)

-- Fuel for the length and one is enough to take all parentheses off.
pub strip_parens_fuel :
    (f g : ℕ) (s : Bytes) → length s < f → length s < g → strip_parens f s ≡ strip_parens g s
unfolding strip_parens
strip_parens_fuel zero g s h k = absurd (omega arith)
strip_parens_fuel (suc f) zero s h k = absurd (omega arith)
strip_parens_fuel (suc f) (suc g) s h k =
    agree (unwrap_trimmed (trim_space s)) (unwrap_trimmed-Longer (trim_space s))
      (strip_parens_fuel f g)
  where
    agree :
        (o : Option Bytes)
        → Longer (trim_space s) o
        → ((t : Bytes) → length t < f → length t < g → strip_parens f t ≡ strip_parens g t)
        → elim o [ none ↦ trim_space s | some inner ↦ strip_parens f inner ]
          ≡ elim o [ none ↦ trim_space s | some inner ↦ strip_parens g inner ]
    agree none l ih = refl
    agree (some inner) l ih =
        ih inner (omega (arith, l, length-trim_space s)) (omega (arith, l, length-trim_space s))

abbrev pub AtMost : ℕ → List Bytes → Type 0
AtMost n ps = All (λ p. length p ≤ n) ps

pub AtMost-mono : (m n : ℕ) (ps : List Bytes) → m ≤ n → AtMost m ps → AtMost n ps
AtMost-mono m n [] h a = tt
AtMost-mono m n (p ∷ ps) h (a, rest) = (omega arith, AtMost-mono m n ps h rest)

AtMost-first : (c n : ℕ) (ps : List Bytes) → AtMost n ps → AtMost (suc n) (in_first c ps)
AtMost-first c n [] a = (omega arith, tt)
AtMost-first c n (p ∷ ps) (a, rest) = (omega arith, AtMost-mono n (suc n) ps (omega arith) rest)

AtMost-if :
    (b : Bool) (n : ℕ) (ps qs : List Bytes)
    → AtMost n ps
    → AtMost n qs
    → AtMost n (if b then ps else qs)
AtMost-if true n ps qs a b = a
AtMost-if false n ps qs a b = b

comma_pieces-AtMost : (d : ℤ) (s : Bytes) → AtMost (length s) (comma_pieces d s)
unfolding comma_pieces
comma_pieces-AtMost d [] = (omega arith, tt)
comma_pieces-AtMost d (c ∷ s) =
    let pieces = comma_pieces (depth_after c d) s in
    let short = comma_pieces-AtMost (depth_after c d) s in
    AtMost-if (c == b',' && at_top d) (suc (length s)) ([] ∷ pieces) (in_first c pieces)
      (omega arith, AtMost-mono (length s) (suc (length s)) pieces (omega arith) short)
      (AtMost-first c (length s) pieces short)

AtMost-trim : (n : ℕ) (ps : List Bytes) → AtMost n ps → AtMost n (map trim_space ps)
AtMost-trim n [] a = tt
AtMost-trim n (p ∷ ps) (a, rest) = (omega (arith, length-trim_space p), AtMost-trim n ps rest)

-- No argument is longer than the list of them.
pub split_args-AtMost : (s : Bytes) → AtMost (length s) (split_args s)
unfolding split_args
split_args-AtMost s =
    AtMost-trim (length s) (comma_pieces (pos 0) s) (comma_pieces-AtMost (pos 0) s)

pub length-trim_prefix : (p s : Bytes) → length (trim_prefix p s) ≤ length s
unfolding trim_prefix
length-trim_prefix p s = ground (arith, length-drop (length p) s)

pub length-trim_suffix : (p s : Bytes) → length (trim_suffix p s) ≤ length s
unfolding trim_suffix
length-trim_suffix p s = ground (arith, length-take (length s - length p) s)

pub length-cut : (c : ℕ) (s : Bytes) → length (cut c s).0 + length (cut c s).1 ≤ length s
unfolding cut
length-cut c [] = omega arith
length-cut c (a ∷ s) = ground (arith, length-cut c s)

pub length-cut_found :
    (c : ℕ) (s : Bytes) → (cut c s).2 ≡ true → length (cut c s).0 + length (cut c s).1 < length s
unfolding cut
length-cut_found c [] h = cc
length-cut_found c (a ∷ s) h = ground (arith, length-cut_found c s)
