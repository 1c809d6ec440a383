-- ===== src/Chunked.antt =====
-- internal/edge/chunked.go: aws-chunked bodies. Spaces and letter case are the ASCII ones.
pub mod Size
pub mod HeaderLine
pub mod TrailerLines
pub mod Frames
pub mod Accepts
pub mod Grammar
pub mod Says
pub mod Trailing
pub mod Bodies
pub mod Turns
mod Tests
use mirror_cloud.Common.{
  ℕ, zero, suc, ◌+◌, Bool, true, false, not, ◌&&◌, ◌||◌, List, [], ◌∷◌, ◌++◌, Option, none, some,
  take, drop, length, ◌==◌, leb, if◌then◌else◌,
}
use mirror_cloud.Bytes.{Bytes, has_prefix}
use mirror_cloud.Chunked.HeaderLine.{
  ChunkError, missing_header, truncated, missing_terminator, missing_final, Header, blank, sized,
  bad, read_header,
}
use mirror_cloud.Chunked.TrailerLines.{crlf, find_crlf, Trailer, Trailers, ok, err, read_trailers}

-- What parseAWSChunked answers.
pub record Body : Type 0 where
  pub body : Bytes
  pub chunks : List Bytes
  pub signatures : List Bytes
  pub trailers : List Trailer

-- `broken` is an answer with both a body and the error of its trailers.
pub data Parsed : Type 0 where
  parsed : Body → Parsed
  broken : Body → ChunkError → Parsed
  failed : ChunkError → Parsed

abbrev pub final_chunk : Bytes → List Trailer → Body
final_chunk signature trailers = record {
  body = [];
  chunks = [] ∷ [];
  signatures = signature ∷ [];
  trailers = trailers;
}

abbrev pub with_chunk : Bytes → Bytes → Body → Body
with_chunk chunk signature b = record {
  body = chunk ++ b.body;
  chunks = chunk ∷ b.chunks;
  signatures = signature ∷ b.signatures;
  trailers = b.trailers;
}

-- A chunk before what the rest of the loop appends.
abbrev pub add_chunk : Bytes → Bytes → Parsed → Parsed
add_chunk chunk signature (failed e) = failed e
add_chunk chunk signature (broken b e) = broken (with_chunk chunk signature b) e
add_chunk chunk signature (parsed b) = parsed (with_chunk chunk signature b)

-- The final chunk; where the trailers have an error, they are nil beside it.
abbrev pub last_of : Bytes → Trailers → Parsed
last_of signature (err e) = broken (final_chunk signature []) e
last_of signature (ok trailers) = parsed (final_chunk signature trailers)

-- A turn of the loop after the header line, with what the loop makes of what follows.
unfoldable pub chunk_turn : (Bytes → Parsed) → Header → Bytes → Parsed
chunk_turn loop blank rest = loop rest
chunk_turn loop (bad e) rest = failed e
chunk_turn loop (sized zero signature) rest = last_of signature (read_trailers rest)
chunk_turn loop (sized (suc n) signature) rest =
    if leb (suc n + 2) (length rest)
    then (if has_prefix crlf (drop (suc n) rest)
        then add_chunk (take (suc n) rest) signature (loop (drop 2 (drop (suc n) rest)))
        else failed missing_terminator)
    else failed truncated

-- The loop over what is left of the body, for a number of turns.
unfoldable pub chunk_loop : ℕ → Bytes → Parsed
unfolding chunk_turn
chunk_loop fuel [] = failed missing_final
chunk_loop zero (c ∷ s) = failed missing_final
chunk_loop (suc fuel) (c ∷ s) = elim (find_crlf (c ∷ s)) [
  | none ↦ failed missing_header
  | some (header, rest) ↦ chunk_turn (chunk_loop fuel) (read_header header) rest
]

-- parseAWSChunked; each turn takes a line from the body, so its length is turns enough.
unfoldable pub parse_aws_chunked : Bytes → Parsed
unfolding chunk_loop
parse_aws_chunked raw = chunk_loop (length raw) raw
