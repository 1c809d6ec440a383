-- ===== src/Chunked/Trailing.antt =====
-- What parseAWSChunkedTrailers (internal/edge/chunked.go) reads.
pub mod Read
use mirror_cloud.Common.{
  ℕ, zero, suc, ◌≡◌, ◌≢◌, ◌≤◌, ◌∙◌, ◌⊎◌, refl, sym, ap, subst, Bool, true, false, not, ◌||◌, List,
  [], ◌∷◌, ◌++◌, Option, none, some, arith, inl, inr, Bool-cases, Option-cases, if◌then◌else◌,
  length,
}
use mirror_cloud.Bytes.{Bytes, cut, has_byte, is_empty}
use mirror_cloud.Bytes.Parts.{cut-append, append-cut}
use mirror_cloud.Bytes.Words.{trim_space}
use mirror_cloud.Chunked.HeaderLine.{missing_trailer_end, data_after_trailers, malformed_trailer}
use mirror_cloud.Chunked.TrailerLines.{
  find_crlf, Trailer, Trailers, ok, err, add_trailer, canonical_key, trailer_turn, trailer_loop,
  read_trailers,
}
use mirror_cloud.Chunked.Grammar.{no_cut, cut-parts}
use mirror_cloud.Chunked.Frames.{find_crlf-length}

-- The lines of trailers: each is a name, which is not blank, a colon and a value; an empty line,
-- behind which there is nothing, ends them.
pub data Trailing : Bytes → List Trailer → Type 0 where
  trailers_end : {raw : Bytes} → find_crlf raw ≡ some ([], []) → Trailing raw []
  trailer :
      {raw rest : Bytes} {trailers : List Trailer} (name text : Bytes)
      → find_crlf raw ≡ some (name ++ (b':' ∷ text), rest)
      → has_byte b':' name ≡ false
      → trim_space name ≢ []
      → Trailing rest trailers
      → Trailing raw ((canonical_key (trim_space name), trim_space text) ∷ trailers)

-- What follows the final header: nothing, or trailers.
abbrev pub AfterChunks : Bytes → List Trailer → Type 0
AfterChunks rest trailers = ((rest ≡ []) × (trailers ≡ [])) ⊎ Trailing rest trailers

-- A line of trailers, by its cut at a colon.
line_turn : Trailers → Bytes × Bytes × Bool → Trailers
line_turn later (name, text, found) =
    if not found || is_empty (trim_space name)
    then err malformed_trailer
    else add_trailer (trim_space name) (trim_space text) later

trailer_turn-line :
    (loop : Bytes → Trailers) (c : ℕ) (line rest : Bytes)
    → trailer_turn loop (c ∷ line) rest ≡ line_turn (loop rest) (cut b':' (c ∷ line))
unfolding trailer_turn line_turn
trailer_turn-line loop c line rest = refl

trailer_turn-end :
    (loop : Bytes → Trailers) (rest : Bytes)
    → trailer_turn loop [] rest ≡ (if is_empty rest then ok [] else err data_after_trailers)
unfolding trailer_turn
trailer_turn-end loop rest = refl

turns : ℕ → Option (Bytes × Bytes) → Trailers
turns fuel none = err missing_trailer_end
turns fuel (some (line, rest)) = trailer_turn (trailer_loop fuel) line rest

trailer_loop-turns :
    (fuel : ℕ) (raw : Bytes) → trailer_loop (suc fuel) raw ≡ turns fuel (find_crlf raw)
unfolding trailer_loop turns
trailer_loop-turns fuel raw = refl

turns_line :
    (fuel : ℕ) (line rest : Bytes)
    → turns fuel (some (line, rest)) ≡ trailer_turn (trailer_loop fuel) line rest
unfolding turns
turns_line fuel line rest = refl

some_name : (s : Bytes) → s ≢ [] → is_empty s ≡ false
some_name [] h = absurd (h refl)
some_name (c ∷ s) h = refl

line_of_name :
    (later : Trailers) (name text line : Bytes)
    → line ≡ name ++ (b':' ∷ text)
    → has_byte b':' name ≡ false
    → trim_space name ≢ []
    → line_turn later (cut b':' line) ≡ add_trailer (trim_space name) (trim_space text) later
unfolding line_turn
line_of_name later name text line e n h =
    ap (λ k. line_turn later (cut b':' k)) e
    ∙ ap (line_turn later) (cut-append b':' name text n)
    ∙ rw (some_name (trim_space name) h) refl

not_nil : (name text : Bytes) → [] ≢ name ++ (b':' ∷ text)
not_nil [] text h = cc
not_nil (c ∷ name) text h = cc

turn_of_name :
    (loop : Bytes → Trailers) (name text line rest : Bytes)
    → line ≡ name ++ (b':' ∷ text)
    → has_byte b':' name ≡ false
    → trim_space name ≢ []
    → trailer_turn loop line rest ≡ add_trailer (trim_space name) (trim_space text) (loop rest)
turn_of_name loop name text [] rest e n h = absurd (not_nil name text e)
turn_of_name loop name text (c ∷ line) rest e n h =
    trailer_turn-line loop c line rest ∙ line_of_name (loop rest) name text (c ∷ line) e n h

-- With turns enough, the lines are read as what they say.
Trailing-loop :
    (fuel : ℕ) {raw : Bytes} {trailers : List Trailer}
    → Trailing raw trailers
    → suc (length raw) ≤ fuel
    → trailer_loop fuel raw ≡ ok trailers
Trailing-loop zero t h = absurd (omega arith)
Trailing-loop (suc fuel) (trailers_end {raw} e) h =
    trailer_loop-turns fuel raw ∙ ap (turns fuel) e ∙ unfold turns trailer_turn in refl
Trailing-loop (suc fuel) (trailer {raw} {rest} {trailers} name text e n k t) h =
    trailer_loop-turns fuel raw
    ∙ ap (turns fuel) e
    ∙ turns_line fuel (name ++ (b':' ∷ text)) rest
    ∙ turn_of_name (trailer_loop fuel) name text (name ++ (b':' ∷ text)) rest refl n k
    ∙ ap (add_trailer (trim_space name) (trim_space text))
        (Trailing-loop fuel t (omega (arith, find_crlf-length raw (name ++ (b':' ∷ text)) rest e)))
