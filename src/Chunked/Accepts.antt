-- ===== src/Chunked/Accepts.antt =====
-- Which bodies parseAWSChunked (internal/edge/chunked.go) accepts, and as what.
use mirror_cloud.Common.{
  ℕ, zero, suc, ◌+◌, ◌≡◌, ◌≢◌, ◌↔◌, refl, sym, ap, ◌∙◌, Bool, true, false, [], ◌∷◌, ◌++◌, Option,
  none, some, take, drop, length, leb, arith, take-append-drop, length-take, subst, if◌then◌else◌,
}
use mirror_cloud.Bytes.{Bytes, has_prefix}
use mirror_cloud.Bytes.Parts.{append-of-has_prefix}
use mirror_cloud.Chunked.{
  Body, Parsed, parsed, broken, failed, final_chunk, add_chunk, last_of, chunk_turn, chunk_loop,
  parse_aws_chunked,
}
use mirror_cloud.Chunked.HeaderLine.{
  ChunkError, Header, missing_header, missing_final, missing_terminator, truncated, blank, sized,
  bad, read_header,
}
use mirror_cloud.Chunked.TrailerLines.{crlf, find_crlf, Trailers, ok, err, read_trailers}
use mirror_cloud.Chunked.Frames.{
  Framed, final_frame, blank_frame, chunk_frame, chunk_loop-line, chunk_loop-nil, chunk_loop-Framed,
}

parsed_injective : (a b : Body) → parsed a ≡ parsed b → a ≡ b
parsed_injective a b h = cc

both_tests :
    (x y : Bool) (p : Parsed) (b : Body)
    → (if x then (if y then p else failed missing_terminator) else failed truncated) ≡ parsed b
    → (x ≡ true) × (y ≡ true) × (p ≡ parsed b)
both_tests true true p b h = (refl, refl, h)
both_tests true false p b h = absurd cc
both_tests false y p b h = absurd cc

-- The loop answers for what follows a line by the grammar.
Answers : (Bytes → Parsed) → Type 0
Answers loop = (rest : Bytes) (b : Body) → loop rest ≡ parsed b → Framed rest b

module _ (loop : Bytes → Parsed) (answers : Answers loop) (raw header : Bytes) where
  final_turn :
      (rest signature : Bytes) (b : Body) (t : Trailers)
      → find_crlf raw ≡ some (header, rest)
      → read_header header ≡ sized 0 signature
      → read_trailers rest ≡ t
      → last_of signature t ≡ parsed b
      → Framed raw b
  final_turn rest signature b (err e) l r k h = absurd cc
  final_turn rest signature b (ok ts) l r k h =
      subst (Framed raw) (parsed_injective (final_chunk signature ts) b h) (final_frame l r k)

  chunk_turn_added :
      (chunk rest signature : Bytes) (b : Body) (p : Parsed)
      → find_crlf raw ≡ some (header, chunk ++ (crlf ++ rest))
      → read_header header ≡ sized (length chunk) signature
      → length chunk ≢ 0
      → loop rest ≡ p
      → add_chunk chunk signature p ≡ parsed b
      → Framed raw b
  chunk_turn_added chunk rest signature b (failed e) l r n k h = absurd cc
  chunk_turn_added chunk rest signature b (broken b' e) l r n k h = absurd cc
  chunk_turn_added chunk rest signature b (parsed b') l r n k h =
      subst (Framed raw) (parsed_injective _ b h)
        (chunk_frame {b = b'} chunk l r n (unfold Answers in answers rest b' k))

  sized_turn :
      (n : ℕ) (rest signature : Bytes) (b : Body)
      → find_crlf raw ≡ some (header, rest)
      → read_header header ≡ sized (suc n) signature
      → leb (suc n + 2) (length rest) ≡ true
      → has_prefix crlf (drop (suc n) rest) ≡ true
      → add_chunk (take (suc n) rest) signature (loop (drop 2 (drop (suc n) rest))) ≡ parsed b
      → Framed raw b
  sized_turn n rest signature b l r long ended h =
      let chunk = take (suc n) rest in
      let (after, e) = append-of-has_prefix crlf (drop (suc n) rest) ended in
      let whole : rest ≡ chunk ++ (crlf ++ after) =
        sym (take-append-drop (suc n) rest) ∙ ap (λ d. chunk ++ d) e in
      let size : length chunk ≡ suc n = ground (arith, length-take (suc n) rest) in
      chunk_turn_added chunk after signature b (loop after) (l ∙ ap (λ k. some (header, k)) whole)
        (r ∙ ap (λ k. sized k signature) (sym size)) (omega arith) refl
        (ap (λ d. add_chunk chunk signature (loop (drop 2 d))) (sym e) ∙ h)

  turn_Framed :
      (rest : Bytes) (b : Body) (line : Header)
      → find_crlf raw ≡ some (header, rest)
      → read_header header ≡ line
      → chunk_turn loop line rest ≡ parsed b
      → Framed raw b
  unfolding chunk_turn Answers
  turn_Framed rest b blank l r h = blank_frame l r (answers rest b h)
  turn_Framed rest b (bad e) l r h = absurd cc
  turn_Framed rest b (sized zero signature) l r h =
      final_turn rest signature b (read_trailers rest) l r refl h
  turn_Framed rest b (sized (suc n) signature) l r h =
      let (long, ended, k) =
        both_tests (leb (suc n + 2) (length rest)) (has_prefix crlf (drop (suc n) rest))
          (add_chunk (take (suc n) rest) signature (loop (drop 2 (drop (suc n) rest)))) b h in
      sized_turn n rest signature b l r long ended k

failed_first {ℓ} : {A : Type ℓ} (e : ChunkError) (b : Body) → failed e ≡ parsed b → A
failed_first e b h = absurd cc

chunk_loop-none :
    (fuel c : ℕ) (s : Bytes)
    → find_crlf (c ∷ s) ≡ none
    → chunk_loop (suc fuel) (c ∷ s) ≡ failed missing_header
unfolding chunk_loop
chunk_loop-none fuel c s h = rw (h, chunk_loop)

chunk_loop-zero : (c : ℕ) (s : Bytes) → chunk_loop 0 (c ∷ s) ≡ failed missing_final
unfolding chunk_loop
chunk_loop-zero c s = refl

line_of :
    (fuel c : ℕ) (s : Bytes) (b : Body) (o : Option (Bytes × Bytes))
    → find_crlf (c ∷ s) ≡ o
    → chunk_loop (suc fuel) (c ∷ s) ≡ parsed b
    → (header : Bytes) × (rest : Bytes) × (find_crlf (c ∷ s) ≡ some (header, rest))
unfolding chunk_loop
line_of fuel c s b (some (header, rest)) e h = (header, rest, e)
line_of fuel c s b none e h = failed_first (missing_header) b (sym (chunk_loop-none fuel c s e) ∙ h)

Framed-chunk_loop : (fuel : ℕ) → Answers (chunk_loop fuel)
unfolding Answers
Framed-chunk_loop fuel [] b h = failed_first missing_final b (sym (chunk_loop-nil fuel) ∙ h)
Framed-chunk_loop zero (c ∷ s) b h = failed_first missing_final b (sym (chunk_loop-zero c s) ∙ h)
Framed-chunk_loop (suc fuel) (c ∷ s) b h =
    let (header, rest, e) = line_of fuel c s b (find_crlf (c ∷ s)) refl h in
    turn_Framed (chunk_loop fuel) (Framed-chunk_loop fuel) (c ∷ s) header rest b
      (read_header header) e refl (sym (chunk_loop-line fuel (c ∷ s) header rest e) ∙ h)

-- `parseAWSChunked` accepts exactly the bodies of the grammar, with the grammar's data, chunks,
-- signatures and trailers: header lines, for a size that is not 0 as many bytes and a line end, and
-- at last a size of 0 with the trailers, which end the body.
pub parse_aws_chunked-Framed :
    (raw : Bytes) (b : Body) → (parse_aws_chunked raw ≡ parsed b) ↔ Framed raw b
unfolding parse_aws_chunked
parse_aws_chunked-Framed raw b = (
  (λ h. unfold Answers in Framed-chunk_loop (length raw) raw b h),
  (λ f. chunk_loop-Framed (length raw) f (omega arith)),
)
