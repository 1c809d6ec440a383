-- ===== src/Chunked/Frames.antt =====
-- What parseAWSChunked (internal/edge/chunked.go) answers for a body of the grammar.
use mirror_cloud.Common.{
  ℕ, zero, suc, ◌+◌, ◌≡◌, ◌≢◌, ◌⊎◌, ◌≤◌, refl, ap, Bool, true, false, List, [], ◌∷◌, ◌++◌, Option,
  none, some, length, leb, arith, inl, inr, length-append, take-append_length, drop-append_length,
  if◌then◌else◌,
}
use mirror_cloud.Bytes.{Bytes, has_prefix}
use mirror_cloud.Chunked.{
  Body, Parsed, parsed, failed, final_chunk, add_chunk, last_of, chunk_turn, chunk_loop,
}
use mirror_cloud.Chunked.HeaderLine.{missing_final, blank, sized, read_header}
use mirror_cloud.Chunked.TrailerLines.{crlf, find_crlf, ends_line, tail, Trailer, ok, read_trailers}

-- The grammar of a framed body: header lines, the data that a header announces with a line end
-- after it, and at last a header of size 0 with the trailers.
pub data Framed : Bytes → Body → Type 0 where
  final_frame :
      {raw header rest signature : Bytes} {trailers : List Trailer}
      → find_crlf raw ≡ some (header, rest)
      → read_header header ≡ sized 0 signature
      → read_trailers rest ≡ ok trailers
      → Framed raw (final_chunk signature trailers)
  blank_frame :
      {raw header rest : Bytes} {b : Body}
      → find_crlf raw ≡ some (header, rest)
      → read_header header ≡ blank
      → Framed rest b
      → Framed raw b
  chunk_frame :
      {raw header rest signature : Bytes} {b : Body} (chunk : Bytes)
      → find_crlf raw ≡ some (header, chunk ++ (crlf ++ rest))
      → read_header header ≡ sized (length chunk) signature
      → length chunk ≢ 0
      → Framed rest b
      → Framed raw (record {
        body = chunk ++ b.body;
        chunks = chunk ∷ b.chunks;
        signatures = signature ∷ b.signatures;
        trailers = b.trailers;
      })

pub find_crlf-nil : (line rest : Bytes) → find_crlf [] ≡ some (line, rest) → ⊥
unfolding find_crlf
find_crlf-nil line rest h = cc

length-tail : (c : ℕ) (s : Bytes) → ends_line c s ≡ true → suc (length (tail s)) ≡ length s
length-tail c [] h = absurd (ground arith)
length-tail c (d ∷ s) h = refl

find_crlf-cons :
    (c : ℕ) (s : Bytes)
    → find_crlf (c ∷ s) ≡ (
        if ends_line c s
        then some ([], tail s)
        else elim (find_crlf s) [ none ↦ none | some (line, rest) ↦ some (c ∷ line, rest) ])
unfolding find_crlf
find_crlf-cons c s = refl

abbrev longer_line : ℕ → Option (Bytes × Bytes) → Option (Bytes × Bytes)
longer_line c none = none
longer_line c (some (line, rest)) = some (c ∷ line, rest)

rest_from :
    (b : Bool) (c : ℕ) (t : Bytes) (o : Option (Bytes × Bytes)) (line rest : Bytes)
    → (if b then some ([], t) else longer_line c o) ≡ some (line, rest)
    → ((b ≡ true) × (t ≡ rest)) ⊎ ((l : Bytes) × (o ≡ some (l, rest)))
rest_from true c t o line rest h = inl (refl, cc)
rest_from false c t none line rest h = absurd cc
rest_from false c t (some (l, r)) line rest h = inr (l, cc)

find_crlf-cases :
    (c : ℕ) (s line rest : Bytes)
    → find_crlf (c ∷ s) ≡ some (line, rest)
    → ((ends_line c s ≡ true) × (tail s ≡ rest)) ⊎ ((l : Bytes) × (find_crlf s ≡ some (l, rest)))
unfolding find_crlf
find_crlf-cases c s line rest h = rest_from (ends_line c s) c (tail s) (find_crlf s) line rest h

-- A line takes at least its end from the text.
pub find_crlf-length :
    (s line rest : Bytes) → find_crlf s ≡ some (line, rest) → suc (length rest) ≤ length s
find_crlf-length [] line rest h = absurd (find_crlf-nil line rest h)
find_crlf-length (c ∷ s) line rest h = elim (find_crlf-cases c s line rest h) [
  | inl (t, e) ↦ omega (arith, length-tail c s t, ap length e)
  | inr (l, e) ↦ omega (arith, find_crlf-length s l rest e)
]

pub chunk_loop-line :
    (fuel : ℕ) (raw header rest : Bytes)
    → find_crlf raw ≡ some (header, rest)
    → chunk_loop (suc fuel) raw ≡ chunk_turn (chunk_loop fuel) (read_header header) rest
unfolding chunk_loop
chunk_loop-line fuel [] header rest h = absurd (find_crlf-nil header rest h)
chunk_loop-line fuel (c ∷ s) header rest h = rw (h, chunk_loop)

chunk_turn-chunk :
    (loop : Bytes → Parsed) (chunk rest signature : Bytes)
    → length chunk ≢ 0
    → chunk_turn loop (sized (length chunk) signature) (chunk ++ (crlf ++ rest))
      ≡ add_chunk chunk signature (loop rest)
unfolding chunk_turn has_prefix
chunk_turn-chunk loop [] rest signature h = absurd (h refl)
chunk_turn-chunk loop (c ∷ chunk) rest signature h =
    let long : leb (suc (length chunk) + 2) (length ((c ∷ chunk) ++ (crlf ++ rest))) ≡ true =
      ground (arith, length-append chunk (crlf ++ rest)) in
    rw (long, drop-append_length chunk (crlf ++ rest), take-append_length chunk (crlf ++ rest))

chunk_turn-blank : (loop : Bytes → Parsed) (rest : Bytes) → chunk_turn loop blank rest ≡ loop rest
unfolding chunk_turn
chunk_turn-blank loop rest = refl

chunk_turn-final :
    (loop : Bytes → Parsed) (signature rest : Bytes)
    → chunk_turn loop (sized 0 signature) rest ≡ last_of signature (read_trailers rest)
unfolding chunk_turn
chunk_turn-final loop signature rest = refl

Framed-length : {raw : Bytes} {b : Body} → Framed raw b → 1 ≤ length raw
Framed-length (final_frame {raw} {header} {rest} l r t) =
    omega (arith, find_crlf-length raw header rest l)
Framed-length (blank_frame {raw} {header} {rest} l r f) =
    omega (arith, find_crlf-length raw header rest l)
Framed-length (chunk_frame {raw} {header} {rest} chunk l r n f) =
    omega (arith, find_crlf-length raw header (chunk ++ (crlf ++ rest)) l)

shorter :
    (raw header chunk rest : Bytes)
    → find_crlf raw ≡ some (header, chunk ++ (crlf ++ rest))
    → suc (length rest) ≤ length raw
shorter raw header chunk rest l = omega (
  arith,
  find_crlf-length raw header (chunk ++ (crlf ++ rest)) l,
  length-append chunk (crlf ++ rest),
)

-- With turns enough, what the grammar gives is what the loop answers.
pub chunk_loop-Framed :
    (fuel : ℕ) {raw : Bytes} {b : Body}
    → Framed raw b
    → length raw ≤ fuel
    → chunk_loop fuel raw ≡ parsed b
chunk_loop-Framed zero f l = absurd (omega (arith, Framed-length f))
chunk_loop-Framed (suc fuel) (final_frame {raw} {header} {rest} {signature} l r t) le = rw (
  chunk_loop-line fuel raw header rest l,
  r,
  chunk_turn-final (chunk_loop fuel) signature rest,
  t,
)
chunk_loop-Framed (suc fuel) (blank_frame {raw} {header} {rest} l r f) le =
    rw (chunk_loop-line fuel raw header rest l, r, chunk_turn-blank (chunk_loop fuel) rest)
      (chunk_loop-Framed fuel f (omega (arith, find_crlf-length raw header rest l)))
chunk_loop-Framed (suc fuel) (chunk_frame {raw} {header} {rest} {signature} chunk l r n f) le = rw (
  chunk_loop-line fuel raw header (chunk ++ (crlf ++ rest)) l,
  r,
  chunk_turn-chunk (chunk_loop fuel) chunk rest signature n,
  chunk_loop-Framed fuel f (omega (arith, shorter raw header chunk rest l)),
)

pub chunk_loop-nil : (fuel : ℕ) → chunk_loop fuel [] ≡ failed missing_final
unfolding chunk_loop
chunk_loop-nil zero = refl
chunk_loop-nil (suc fuel) = refl
