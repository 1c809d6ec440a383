-- ===== src/Chunked/Says.antt =====
-- What parseAWSChunked (internal/edge/chunked.go) reads in a header line.
use mirror_cloud.Common.{
  ℕ, ◌≡◌, ◌≢◌, ◌∙◌, refl, sym, ap, subst, Bool, true, false, List, [], ◌∷◌, Option, none, some, inl,
  inr, Bool-cases, if◌then◌else◌,
}
use mirror_cloud.Common.Int.{ℤ, pos, negsuc}
use mirror_cloud.Bytes.{Bytes, cut, has_byte}
use mirror_cloud.Bytes.Parts.{cut-append, append-cut}
use mirror_cloud.Bytes.Words.{trim_space, split}
use mirror_cloud.Chunked.HeaderLine.{
  duplicate_signature, bad_size, Header, blank, sized, bad, size_of, signature_of, read_header,
}
use mirror_cloud.Chunked.Size.{parse_int16}
use mirror_cloud.Chunked.Grammar.{Parts, Says, signed, of_signed, no_cut, cut-parts}

extensions_at : Bytes × Bytes × Bool → List Bytes
extensions_at (part, rest, found) = if found then split b';' rest else []

-- The signature found at a cut, and what a header with it says.
header_by : Bytes → Option Bytes → Header
header_by part none = bad duplicate_signature
header_by part (some signature) = size_of (trim_space part) signature

extensions_by :
    (part rest : Bytes) (found : Bool)
    → (if found then signature_of [] (split b';' rest) else some [])
      ≡ signature_of [] (extensions_at (part, rest, found))
unfolding extensions_at signature_of
extensions_by part rest true = refl
extensions_by part rest false = refl

at_cut :
    (header : Bytes)
    → read_header header
      ≡ header_by (cut b';' header).0 (signature_of [] (extensions_at (cut b';' header)))
unfolding read_header header_by
at_cut header =
    let (part, rest, found) = cut b';' header in ap (header_by part) (extensions_by part rest found)

by_cut :
    (header part rest : Bytes) (found : Bool)
    → cut b';' header ≡ (part, rest, found)
    → read_header header ≡ header_by part (signature_of [] (extensions_at (part, rest, found)))
by_cut header part rest found e =
    at_cut header
    ∙ ap (λ (p : Bytes × Bytes × Bool). header_by p.0 (signature_of [] (extensions_at p))) e

-- The parts of a header are those of its cut.
Parts-of : (header : Bytes) → Parts header (cut b';' header).0 (extensions_at (cut b';' header))
Parts-of header = elim (Bool-cases (has_byte b';' header)) [
  | inl y ↦
      let (found, before) = cut-parts b';' header y in
      inr (
        (cut b';' header).1,
        before,
        sym (append-cut b';' header y),
        unfold extensions_at in rw found refl,
      )
  | inr n ↦
      let e = no_cut b';' header n in
      inl (
        n,
        ap (λ (p : Bytes × Bytes × Bool). p.0) e,
        ap extensions_at e ∙ unfold extensions_at in refl,
      )
]

by-Parts :
    (header part : Bytes) (extensions : List Bytes)
    → Parts header part extensions
    → read_header header ≡ header_by part (signature_of [] extensions)
unfolding extensions_at header_by
by-Parts header part extensions (inl (n, p, x)) =
    by_cut header header [] false (no_cut b';' header n)
    ∙ ap (λ k. header_by k (signature_of [] [])) (sym p)
    ∙ ap (λ k. header_by part (signature_of [] k)) (sym x)
by-Parts header part extensions (inr (rest, n, p, x)) =
    by_cut header part rest true (ap (cut b';') p ∙ cut-append b';' part rest n)
    ∙ ap (λ k. header_by part (signature_of [] k)) (sym x)

-- A header line of a size and a signature.
abbrev pub SaysSize : Bytes → ℕ → Bytes → Type 0
SaysSize header n signature =
    (size_part : Bytes) × Says header size_part signature × (parse_int16 size_part ≡ some (pos n))

-- A header line with no size.
abbrev pub SaysNothing : Bytes → Type 0
SaysNothing header = (signature : Bytes) × Says header [] signature

read_of :
    {header size_part signature : Bytes}
    → Says header size_part signature
    → read_header header ≡ size_of size_part signature
unfolding header_by
read_of {header} {size_part} {signature} s =
    by-Parts header s.part s.extensions s.parts
    ∙ ap (header_by s.part) (of_signed [] s.extensions signature s.signed)
    ∙ ap (λ k. size_of k signature) s.trimmed

size_of_pos :
    (size_part signature : Bytes) (n : ℕ)
    → parse_int16 size_part ≡ some (pos n)
    → size_of size_part signature ≡ sized n signature
unfolding parse_int16
size_of_pos [] signature n h = cc
size_of_pos (c ∷ s) signature n h = rw h refl

pub SaysSize-sized :
    (header : Bytes) (n : ℕ) (signature : Bytes)
    → SaysSize header n signature
    → read_header header ≡ sized n signature
SaysSize-sized header n signature (size_part, s, p) =
    read_of s ∙ size_of_pos size_part signature n p

pub SaysNothing-blank : (header : Bytes) → SaysNothing header → read_header header ≡ blank
SaysNothing-blank header (signature, s) = read_of s

sized_by :
    (o : Option ℤ) (n : ℕ) (signature other : Bytes)
    → (elim o [
      | none ↦ bad bad_size
      | some (negsuc k) ↦ bad bad_size
      | some (pos k) ↦ sized k signature
    ])
      ≡ sized n other
    → (o ≡ some (pos n)) × (signature ≡ other)
sized_by none n signature other h = absurd cc
sized_by (some (negsuc k)) n signature other h = absurd cc
sized_by (some (pos k)) n signature other h = (cc, cc)

of_size :
    (size_part : Bytes) (n : ℕ) (signature other : Bytes)
    → size_of size_part signature ≡ sized n other
    → (parse_int16 size_part ≡ some (pos n)) × (signature ≡ other)
of_size [] n signature other h = absurd cc
of_size (c ∷ s) n signature other h = sized_by (parse_int16 (c ∷ s)) n signature other h

never_blank :
    (o : Option ℤ) (signature : Bytes)
    → (elim o [
      | none ↦ bad bad_size
      | some (negsuc k) ↦ bad bad_size
      | some (pos k) ↦ sized k signature
    ])
      ≢ blank
never_blank none signature h = cc
never_blank (some (negsuc k)) signature h = cc
never_blank (some (pos k)) signature h = cc

of_blank : (size_part signature : Bytes) → size_of size_part signature ≡ blank → size_part ≡ []
of_blank [] signature h = refl
of_blank (c ∷ s) signature h = absurd (never_blank (parse_int16 (c ∷ s)) signature h)

-- The header by its own cut, with the signature that is found.
own : Bytes → Option Bytes
own header = signature_of [] (extensions_at (cut b';' header))

says :
    (header signature : Bytes)
    → own header ≡ some signature
    → Says header (trim_space (cut b';' header).0) signature
unfolding own
says header signature h = record {
  part = (cut b';' header).0;
  extensions = extensions_at (cut b';' header);
  parts = Parts-of header;
  trimmed = refl;
  signed = signed [] (extensions_at (cut b';' header)) signature h;
}

sized-by :
    (header : Bytes) (n : ℕ) (signature : Bytes) (o : Option Bytes)
    → own header ≡ o
    → header_by (cut b';' header).0 o ≡ sized n signature
    → SaysSize header n signature
unfolding header_by
sized-by header n signature none e h = absurd cc
sized-by header n signature (some found) e h =
    let size_part = trim_space (cut b';' header).0 in
    let (p, q) = of_size size_part n found signature h in
    (size_part, subst (Says header size_part) q (says header found e), p)

pub sized-SaysSize :
    (header : Bytes) (n : ℕ) (signature : Bytes)
    → read_header header ≡ sized n signature
    → SaysSize header n signature
unfolding own
sized-SaysSize header n signature h =
    sized-by header n signature (own header) refl (sym (at_cut header) ∙ h)

blank-by :
    (header : Bytes) (o : Option Bytes)
    → own header ≡ o
    → header_by (cut b';' header).0 o ≡ blank
    → SaysNothing header
unfolding header_by
blank-by header none e h = absurd cc
blank-by header (some found) e h = (
  found,
  subst (λ k. Says header k found) (of_blank (trim_space (cut b';' header).0) found h)
      (says header found e),
)

pub blank-SaysNothing : (header : Bytes) → read_header header ≡ blank → SaysNothing header
unfolding own
blank-SaysNothing header h = blank-by header (own header) refl (sym (at_cut header) ∙ h)
