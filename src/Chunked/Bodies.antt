-- ===== src/Chunked/Bodies.antt =====
-- The bodies that parseAWSChunked (internal/edge/chunked.go) accepts.
use mirror_cloud.Common.{◌≡◌, ◌≢◌, ◌↔◌, List, ◌++◌, some, length}
use mirror_cloud.Bytes.{Bytes}
use mirror_cloud.Chunked.{Body, parsed, final_chunk, with_chunk, parse_aws_chunked}
use mirror_cloud.Chunked.TrailerLines.{crlf, find_crlf, Trailer}
use mirror_cloud.Chunked.Frames.{Framed, final_frame, blank_frame, chunk_frame}
use mirror_cloud.Chunked.Accepts.{parse_aws_chunked-Framed}
use mirror_cloud.Chunked.Says.{
  SaysSize, SaysNothing, SaysSize-sized, SaysNothing-blank, sized-SaysSize, blank-SaysNothing,
}
use mirror_cloud.Chunked.Trailing.{AfterChunks}
use mirror_cloud.Chunked.Trailing.Read.{AfterChunks-read, read-AfterChunks}

-- The grammar of a body. A line ends before the first line end of what is left.
pub data IsBody : Bytes → Body → Type 0 where
  final_part :
      {raw header rest signature : Bytes} {trailers : List Trailer}
      → find_crlf raw ≡ some (header, rest)
      → SaysSize header 0 signature
      → AfterChunks rest trailers
      → IsBody raw (final_chunk signature trailers)
  blank_part :
      {raw header rest : Bytes} {b : Body}
      → find_crlf raw ≡ some (header, rest)
      → SaysNothing header
      → IsBody rest b
      → IsBody raw b
  chunk_part :
      {raw header rest signature : Bytes} {b : Body} (chunk : Bytes)
      → find_crlf raw ≡ some (header, chunk ++ (crlf ++ rest))
      → SaysSize header (length chunk) signature
      → length chunk ≢ 0
      → IsBody rest b
      → IsBody raw (with_chunk chunk signature b)

IsBody-of : {raw : Bytes} {b : Body} → Framed raw b → IsBody raw b
IsBody-of (final_frame {raw} {header} {rest} {signature} {trailers} l r t) =
    final_part l (sized-SaysSize header 0 signature r) (read-AfterChunks rest trailers t)
IsBody-of (blank_frame {raw} {header} {rest} l r f) =
    blank_part l (blank-SaysNothing header r) (IsBody-of f)
IsBody-of (chunk_frame {raw} {header} {rest} {signature} chunk l r n f) =
    chunk_part chunk l (sized-SaysSize header (length chunk) signature r) n (IsBody-of f)

IsBody-Framed : {raw : Bytes} {b : Body} → IsBody raw b → Framed raw b
IsBody-Framed (final_part {raw} {header} {rest} {signature} {trailers} l r t) =
    final_frame l (SaysSize-sized header 0 signature r) (AfterChunks-read rest trailers t)
IsBody-Framed (blank_part {raw} {header} {rest} l r f) =
    blank_frame l (SaysNothing-blank header r) (IsBody-Framed f)
IsBody-Framed (chunk_part {raw} {header} {rest} {signature} chunk l r n f) =
    chunk_frame chunk l (SaysSize-sized header (length chunk) signature r) n (IsBody-Framed f)

-- `parseAWSChunked` answers a body without an error exactly for the bodies of the grammar, with the
-- grammar's data, chunks, signatures and trailers. A body is of header lines with a size in base
-- 16, for a size that is not 0 as many bytes and a line end, lines with no size, and at last a
-- header of size 0 with nothing behind it, or with trailers: lines of a name that is not blank, a
-- colon and a value, and an empty line that ends the body. Of the chunk signatures that a header
-- gives, all but the last are empty.
pub parse_aws_chunked-IsBody :
    (raw : Bytes) (b : Body) → (parse_aws_chunked raw ≡ parsed b) ↔ IsBody raw b
parse_aws_chunked-IsBody raw b = (
  (λ h. IsBody-of ((parse_aws_chunked-Framed raw b).0 h)),
  (λ f. (parse_aws_chunked-Framed raw b).1 (IsBody-Framed f)),
)
