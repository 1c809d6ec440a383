-- ===== src/Chunked/HeaderLine.antt =====
-- The header of a chunk in internal/edge/chunked.go.
use mirror_cloud.Common.{ℕ, not, ◌&&◌, List, [], ◌∷◌, Option, none, some, if◌then◌else◌}
use mirror_cloud.Common.Int.{pos, negsuc}
use mirror_cloud.Bytes.{Bytes, codes, is_empty, cut}
use mirror_cloud.Bytes.Fold.{equal_fold}
use mirror_cloud.Bytes.Words.{trim_space, split}
use mirror_cloud.Chunked.Size.{parse_int16}

pub data ChunkError : Type 0 where
  missing_header duplicate_signature bad_size truncated missing_terminator : ChunkError
  missing_final missing_trailer_end data_after_trailers malformed_trailer : ChunkError

-- The loop over the extensions, with the signature found so far.
unfoldable pub signature_of : Bytes → List Bytes → Option Bytes
signature_of signature [] = some signature
signature_of signature (extension ∷ extensions) =
    let (name, value, ok) = cut 61 extension in
    if ok && equal_fold (trim_space name) (codes "chunk-signature")
    then (if not (is_empty signature) then none else signature_of (trim_space value) extensions)
    else signature_of signature extensions

-- What a header line says: nothing, a size and a signature, or an error.
pub data Header : Type 0 where
  blank : Header
  sized : ℕ → Bytes → Header
  bad : ChunkError → Header

abbrev pub size_of : Bytes → Bytes → Header
size_of size_part signature = if is_empty size_part then blank else elim (parse_int16 size_part) [
  | none ↦ bad bad_size
  | some (negsuc n) ↦ bad bad_size
  | some (pos n) ↦ sized n signature
]

unfoldable pub read_header : Bytes → Header
unfolding signature_of split
read_header header =
    let (size_part, extensions, ok) = cut 59 header in
    elim (if ok then signature_of [] (split 59 extensions) else some []) [
      | none ↦ bad duplicate_signature
      | some signature ↦ size_of (trim_space size_part) signature
    ]
