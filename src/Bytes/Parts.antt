-- ===== src/Bytes/Parts.antt =====
-- Prefixes.
use mirror_cloud.Common.{
  ℕ, ◌≡◌, refl, sym, ap, ◌∙◌, Bool, true, false, [], ◌∷◌, ◌++◌, ◌&&◌, arith, drop-append_length,
}
use mirror_cloud.Bytes.{Bytes, has_prefix, trim_prefix, has_byte, cut, same, same_iff}

pub has_prefix-append : (p s : Bytes) → has_prefix p (p ++ s) ≡ true
unfolding has_prefix
has_prefix-append [] s = refl
has_prefix-append (a ∷ p) s = ground (arith, has_prefix-append p s)

pub append-of-has_prefix : (p s : Bytes) → has_prefix p s ≡ true → (rest : Bytes) × (s ≡ p ++ rest)
unfolding has_prefix
append-of-has_prefix [] s h = (s, refl)
append-of-has_prefix (a ∷ p) [] h = cc
append-of-has_prefix (a ∷ p) (b ∷ s) h =
    let (rest, e) = append-of-has_prefix p s (ground arith) in (rest, ground arith)

pub has_prefix-append_cancel : (p q s : Bytes) → has_prefix (p ++ q) (p ++ s) ≡ has_prefix q s
unfolding has_prefix
has_prefix-append_cancel [] q s = refl
has_prefix-append_cancel (a ∷ p) q s = ground (arith, has_prefix-append_cancel p q s)

pub trim_prefix-append : (p s : Bytes) → trim_prefix p (p ++ s) ≡ s
unfolding trim_prefix
trim_prefix-append p s = rw (has_prefix-append p s) (drop-append_length p s)

pub append_left_cancel : (p s t : Bytes) → p ++ s ≡ p ++ t → s ≡ t
append_left_cancel p s t e =
    sym (trim_prefix-append p s) ∙ ap (trim_prefix p) e ∙ trim_prefix-append p t

-- Cutting at the first separator finds the two parts that were joined, when the first has none.
pub cut-append : (c : ℕ) (s t : Bytes) → has_byte c s ≡ false → cut c (s ++ c ∷ t) ≡ (s, t, true)
unfolding cut has_byte
cut-append c [] t h = ground arith
cut-append c (a ∷ s) t h = ground (arith, cut-append c s t)

-- Joining the parts of a cut gives back a string that has the separator.
pub append-cut : (c : ℕ) (s : Bytes) → has_byte c s ≡ true → (cut c s).0 ++ c ∷ (cut c s).1 ≡ s
unfolding cut has_byte
append-cut c [] h = cc
append-cut c (a ∷ s) h = ground (arith, append-cut c s)

-- Joins by a separator that neither first part has are equal only if the parts are.
pub join_inj :
    (c : ℕ) (s t s' t' : Bytes)
    → has_byte c s ≡ false
    → has_byte c s' ≡ false
    → s ++ c ∷ t ≡ s' ++ c ∷ t'
    → (s ≡ s') × (t ≡ t')
join_inj c s t s' t' h h' e =
    let p : ◌≡◌ {A = Bytes × Bytes × Bool} (s, t, true) (s', t', true) =
      sym (cut-append c s t h) ∙ ap (cut c) e ∙ cut-append c s' t' h' in
    (ap (λ q. q.0) p, ap (λ q. q.1) p)

pub has_byte-append : (c : ℕ) (s t : Bytes) → has_byte c (s ++ c ∷ t) ≡ true
unfolding has_byte
has_byte-append c [] t = ground arith
has_byte-append c (a ∷ s) t = ground (arith, has_byte-append c s t)

pub same-join :
    (c : ℕ) (s t s' t' : Bytes)
    → has_byte c s ≡ false
    → has_byte c s' ≡ false
    → same (s ++ c ∷ t) (s' ++ c ∷ t') ≡ (same s s' && same t t')
same-join c s t s' t' h h' = ground (
  arith,
  same_iff (s ++ c ∷ t) (s' ++ c ∷ t'),
  same_iff s s',
  same_iff t t',
  join_inj c s t s' t' h h',
)

pub same-append_left : (p s t : Bytes) → same (p ++ s) (p ++ t) ≡ same s t
same-append_left p s t =
    ground (arith, same_iff (p ++ s) (p ++ t), same_iff s t, append_left_cancel p s t)
