-- ===== src/Events/Wildcard.antt =====
-- The regular expression that matchWildcard builds
-- (internal/services/aws/events/events_extra.go).
use mirror_cloud.Common.{
  ℕ, ◌≡◌, ◌≢◌, ◌∙◌, refl, sym, ap, true, false, ◌&&◌, ◌==◌, [], ◌∷◌, ◌++◌, if◌then◌else◌,
  Bool-cases, inl, inr, arith,
}
use mirror_cloud.Bytes.{Bytes, codes, has_prefix, has_byte}
use mirror_cloud.Bytes.Words.{replace_all, replace_from}
use mirror_cloud.Events.{is_special, quote_meta, wildcard_expression}

-- What stands for a byte of the pattern: any bytes for a star, and otherwise the byte itself, with a
-- backslash where it has a meaning in an expression.
pub expression_of : Bytes → Bytes
expression_of [] = []
expression_of (c ∷ s) =
    if c == b'*'
    then codes ".*" ++ expression_of s
    else if has_byte c (codes ".+?()|[]{}^$" ++ (92 ∷ []))
    then 92 ∷ c ∷ expression_of s
    else c ∷ expression_of s

abbrev star : Bytes
star = 92 ∷ b'*' ∷ []

special_by : (c : ℕ) → c ≢ b'*' → has_byte c (codes ".+?()|[]{}^$" ++ (92 ∷ [])) ≡ is_special c
unfolding has_byte is_special
special_by c h = ground (arith, h)

star-is_special : is_special b'*' ≡ true
unfolding is_special has_byte
star-is_special = refl

slash-is_special : is_special 92 ≡ true
unfolding is_special has_byte
slash-is_special = refl

quote_meta-cons :
    (c : ℕ) (s : Bytes)
    → quote_meta (c ∷ s) ≡ (if is_special c then 92 ∷ c ∷ quote_meta s else c ∷ quote_meta s)
unfolding quote_meta
quote_meta-cons c s = refl

replaced : Bytes → Bytes
replaced s = replace_from star (codes ".*") 0 s

replaced_star : (s : Bytes) → replaced (92 ∷ b'*' ∷ s) ≡ codes ".*" ++ replaced s
unfolding replaced replace_from has_prefix
replaced_star s = refl

replaced_byte :
    (c : ℕ) (s : Bytes) → has_prefix star (c ∷ s) ≡ false → replaced (c ∷ s) ≡ c ∷ replaced s
unfolding replaced replace_from
replaced_byte c s h = rw h refl

has_prefix-star :
    (c : ℕ) (s : Bytes) → has_prefix star (c ∷ s) ≡ (92 == c && has_prefix (b'*' ∷ []) s)
unfolding has_prefix
has_prefix-star c s = refl

has_prefix-head : (c : ℕ) (s : Bytes) → has_prefix (b'*' ∷ []) (c ∷ s) ≡ (b'*' == c)
unfolding has_prefix
has_prefix-head c s = ground arith

-- A quoted text does not begin with a star.
no_star : (s : Bytes) → has_prefix (b'*' ∷ []) (quote_meta s) ≡ false
no_star [] = unfold quote_meta has_prefix in refl
no_star (c ∷ s) = elim (Bool-cases (is_special c)) [
  | inl e ↦ ground (arith, quote_meta-cons c s, e, has_prefix-head 92 (c ∷ quote_meta s))
  | inr e ↦
      let other : c ≢ b'*' = λ h. cc (e, ap is_special h, star-is_special) in
      ground (arith, quote_meta-cons c s, e, has_prefix-head c (quote_meta s), other)
]

expression_of-cons :
    (c : ℕ) (s : Bytes)
    → expression_of (c ∷ s) ≡ (
        if c == b'*'
        then codes ".*" ++ expression_of s
        else if has_byte c (codes ".+?()|[]{}^$" ++ (92 ∷ []))
        then 92 ∷ c ∷ expression_of s
        else c ∷ expression_of s)
unfolding expression_of
expression_of-cons c s = refl

module _ (c : ℕ) (s : Bytes) (ih : replaced (quote_meta s) ≡ expression_of s) where
  at_star : c ≡ b'*' → replaced (quote_meta (c ∷ s)) ≡ expression_of (c ∷ s)
  at_star e =
      let special : is_special c ≡ true = ap is_special e ∙ star-is_special in
      let quoted : quote_meta (c ∷ s) ≡ 92 ∷ b'*' ∷ quote_meta s =
        ground (arith, quote_meta-cons c s, special, e) in
      let meant : expression_of (c ∷ s) ≡ codes ".*" ++ expression_of s =
        ground (arith, expression_of-cons c s, e) in
      ap replaced quoted ∙ replaced_star (quote_meta s) ∙ ap (λ t. codes ".*" ++ t) ih ∙ sym meant

  -- The byte itself, before what follows.
  itself : replaced (c ∷ quote_meta s) ≡ c ∷ expression_of s
  itself =
      replaced_byte c (quote_meta s) (ground (arith, has_prefix-star c (quote_meta s), no_star s))
      ∙ ap (λ t. c ∷ t) ih

  at_special :
      c ≢ b'*' → is_special c ≡ true → replaced (quote_meta (c ∷ s)) ≡ expression_of (c ∷ s)
  at_special n special =
      let quoted : quote_meta (c ∷ s) ≡ 92 ∷ c ∷ quote_meta s =
        ground (arith, quote_meta-cons c s, special) in
      let meant : expression_of (c ∷ s) ≡ 92 ∷ c ∷ expression_of s =
        ground (arith, expression_of-cons c s, special_by c n, special, n) in
      ap replaced quoted
      ∙ replaced_byte 92 (c ∷ quote_meta s) (
          ground
            (arith, has_prefix-star 92 (c ∷ quote_meta s), has_prefix-head c (quote_meta s), n))
      ∙ ap (λ t. 92 ∷ t) itself
      ∙ sym meant

  at_plain : c ≢ b'*' → is_special c ≡ false → replaced (quote_meta (c ∷ s)) ≡ expression_of (c ∷ s)
  at_plain n plain =
      let quoted : quote_meta (c ∷ s) ≡ c ∷ quote_meta s =
        ground (arith, quote_meta-cons c s, plain) in
      let meant : expression_of (c ∷ s) ≡ c ∷ expression_of s =
        ground (arith, expression_of-cons c s, special_by c n, plain, n) in
      ap replaced quoted ∙ itself ∙ sym meant

replaced_quoted : (s : Bytes) → replaced (quote_meta s) ≡ expression_of s
replaced_quoted [] = unfold replaced quote_meta replace_from expression_of in refl
replaced_quoted (c ∷ s) = elim (Bool-cases (c == b'*')) [
  | inl e ↦ at_star c s (replaced_quoted s) (ground (arith, e))
  | inr e ↦ elim (Bool-cases (is_special c)) [
    | inl k ↦ at_special c s (replaced_quoted s) (ground (arith, e)) k
    | inr k ↦ at_plain c s (replaced_quoted s) (ground (arith, e)) k
  ]
]

-- The expression that `matchWildcard` builds is, between `^` and `$`, for each byte of the pattern
-- in turn: `.*` for a star, and for another byte the byte, with a backslash before it where it has
-- a meaning in an expression.
pub wildcard_expression_exact :
    (pattern : Bytes)
    → wildcard_expression pattern ≡ codes "^" ++ (expression_of pattern ++ codes "$")
unfolding wildcard_expression replace_all replaced
wildcard_expression_exact pattern =
    ap (λ t. codes "^" ++ (t ++ codes "$")) (replaced_quoted pattern)
