-- ===== src/Chunked/Turns.antt =====
-- The loop of parseAWSChunked (internal/edge/chunked.go) ends.
use mirror_cloud.Common.{Option, none, some}
use mirror_cloud.Bytes.{Bytes}
use mirror_cloud.Chunked.{Parsed, failed, chunk_turn}
use mirror_cloud.Chunked.HeaderLine.{missing_trailer_end, missing_header, read_header}
use mirror_cloud.Chunked.TrailerLines.{Trailers, err, trailer_turn}

go_on : (Bytes → Parsed) → Option (Bytes × Bytes) → Parsed
go_on loop none = failed missing_header
go_on loop (some (header, rest)) = chunk_turn loop (read_header header) rest

trailers_from : (Bytes → Trailers) → Option (Bytes × Bytes) → Trailers
trailers_from loop none = err missing_trailer_end
trailers_from loop (some (line, rest)) = trailer_turn loop line rest
