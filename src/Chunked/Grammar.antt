-- ===== src/Chunked/Grammar.antt =====
-- What a header line of an aws-chunked body says (internal/edge/chunked.go).
use mirror_cloud.Common.{
  ℕ, ◌≡◌, ◌⊎◌, refl, sym, ap, subst, Bool, true, false, not, ◌&&◌, List, [], ◌∷◌, ◌++◌, none, some,
  arith, inl, inr, Bool-cases, if◌then◌else◌,
}
use mirror_cloud.Bytes.{Bytes, codes, cut, has_byte, is_empty}
use mirror_cloud.Bytes.Fold.{equal_fold}
use mirror_cloud.Bytes.Words.{trim_space, split}
use mirror_cloud.Chunked.HeaderLine.{signature_of}

-- Whether an extension of a header is a chunk signature.
abbrev pub is_signature : Bytes → Bool
is_signature extension =
    (cut b'=' extension).2
    && equal_fold (trim_space (cut b'=' extension).0) (codes "chunk-signature")

-- The values of the chunk signatures among the extensions.
pub signature_values : List Bytes → List Bytes
signature_values [] = []
signature_values (e ∷ es) =
    if is_signature e then trim_space (cut b'=' e).1 ∷ signature_values es else signature_values es

-- Of the first signature and the values after it, all but the last are empty.
abbrev pub OnlyLast : Bytes → List Bytes → Bytes → Type 0
OnlyLast first [] signature = first ≡ signature
OnlyLast first (v ∷ vs) signature = (first ≡ []) × OnlyLast v vs signature

-- The part of a header before its first semicolon, and the extensions behind it.
abbrev pub Parts : Bytes → Bytes → List Bytes → Type 0
Parts header part extensions =
    ((has_byte b';' header ≡ false) × (part ≡ header) × (extensions ≡ []))
    ⊎ ((rest : Bytes) × (has_byte b';' part ≡ false)
        × (header ≡ part ++ (b';' ∷ rest))
        × (extensions ≡ split b';' rest))

-- A header with its size part, in which blanks are trimmed, and its signature.
pub record Says (header size_part signature : Bytes) : Type 0 where
  pub part : Bytes
  pub extensions : List Bytes
  pub parts : Parts header part extensions
  pub trimmed : trim_space part ≡ size_part
  pub signed : OnlyLast [] (signature_values extensions) signature

signature_of-cons :
    (first e : Bytes) (es : List Bytes)
    → signature_of first (e ∷ es) ≡ (
        if is_signature e
        then (if not (is_empty first) then none else signature_of (trim_space (cut b'=' e).1) es)
        else signature_of first es)
unfolding signature_of
signature_of-cons first e es = refl

empty_by : (s : Bytes) → is_empty s ≡ true → s ≡ []
empty_by [] h = refl
empty_by (c ∷ s) h = absurd cc

values_yes :
    (e : Bytes) (es : List Bytes)
    → is_signature e ≡ true
    → signature_values (e ∷ es) ≡ trim_space (cut b'=' e).1 ∷ signature_values es
unfolding signature_values
values_yes e es h = rw h refl

values_no :
    (e : Bytes) (es : List Bytes)
    → is_signature e ≡ false
    → signature_values (e ∷ es) ≡ signature_values es
unfolding signature_values
values_no e es h = rw h refl

pub signed :
    (first : Bytes) (es : List Bytes) (signature : Bytes)
    → signature_of first es ≡ some signature
    → OnlyLast first (signature_values es) signature
signed first [] signature h = unfold signature_of signature_values in cc
signed first (e ∷ es) signature h = elim (Bool-cases (is_signature e)) [
  | inr k ↦
      subst (λ vs. OnlyLast first vs signature) (sym (values_no e es k))
        (signed first es signature (ground (arith, signature_of-cons first e es, h, k)))
  | inl k ↦
      let v = trim_space (cut b'=' e).1 in
      let empty : is_empty first ≡ true = ground (arith, signature_of-cons first e es, h, k) in
      subst (λ vs. OnlyLast first vs signature) (sym (values_yes e es k))
        (
          empty_by first empty,
          signed v es signature (ground (arith, signature_of-cons first e es, h, k, empty)),
        )
]

pub of_signed :
    (first : Bytes) (es : List Bytes) (signature : Bytes)
    → OnlyLast first (signature_values es) signature
    → signature_of first es ≡ some signature
of_signed first [] signature h =
    unfold signature_of signature_values in ap (λ (v : Bytes). some v) h
of_signed first (e ∷ es) signature h = elim (Bool-cases (is_signature e)) [
  | inr k ↦
      let later =
        of_signed first es signature
          (subst (λ vs. OnlyLast first vs signature) (values_no e es k) h) in
      ground (arith, signature_of-cons first e es, later, k)
  | inl k ↦
      let (empty, last) = subst (λ vs. OnlyLast first vs signature) (values_yes e es k) h in
      let later = of_signed (trim_space (cut b'=' e).1) es signature last in
      ground (arith, signature_of-cons first e es, later, k, ap is_empty empty)
]

pub no_cut : (c : ℕ) (s : Bytes) → has_byte c s ≡ false → cut c s ≡ (s, [], false)
unfolding cut has_byte
no_cut c [] h = refl
no_cut c (a ∷ s) h = ground (arith, no_cut c s)

pub cut-parts :
    (c : ℕ) (s : Bytes)
    → has_byte c s ≡ true
    → ((cut c s).2 ≡ true) × (has_byte c (cut c s).0 ≡ false)
unfolding cut has_byte
cut-parts c [] h = absurd cc
cut-parts c (a ∷ s) h = ground (arith, cut-parts c s)
