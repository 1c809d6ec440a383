-- ===== src/Chunked/Tests.antt =====
-- A body of one chunk of three bytes, with a signature and a trailer.
use mirror_cloud.Common.{◌≡◌, refl, [], ◌∷◌, ◌++◌}
use mirror_cloud.Bytes.{Bytes, codes, cut, same, has_prefix}
use mirror_cloud.Bytes.Fold.{equal_fold}
use mirror_cloud.Chunked.{Body, parsed, broken, parse_aws_chunked, chunk_loop}
use mirror_cloud.Bytes.Words.{trim_space}
use mirror_cloud.Chunked.Size.{parse_int16}
use mirror_cloud.Chunked.HeaderLine.{data_after_trailers, read_header}
use mirror_cloud.Chunked.TrailerLines.{crlf, find_crlf, read_trailers, canonical_key}
use mirror_cloud.Chunked.Bodies.{IsBody, parse_aws_chunked-IsBody}

abbrev raw : Bytes
raw =
    codes "3;chunk-signature=ab"
    ++ crlf
    ++ codes "x"
    ++ crlf
    ++ crlf
    ++ codes "0;chunk-signature=cd"
    ++ crlf
    ++ codes "x-amz-sum: 7"
    ++ crlf
    ++ crlf

abbrev framed : Body
framed = record {
  body = codes "x" ++ crlf;
  chunks = (codes "x" ++ crlf) ∷ [] ∷ [];
  signatures = codes "ab" ∷ codes "cd" ∷ [];
  trailers = (codes "X-Amz-Sum", codes "7") ∷ [];
}

raw-parsed : parse_aws_chunked raw ≡ parsed framed
unfolding parse_aws_chunked chunk_loop find_crlf read_header cut trim_space parse_int16 equal_fold
    same read_trailers canonical_key has_prefix
raw-parsed = refl

parse_aws_chunked-IsBody_example : IsBody raw framed
parse_aws_chunked-IsBody_example = (parse_aws_chunked-IsBody raw framed).0 raw-parsed

-- What is read stands beside the error of the trailers.
abbrev unended : Bytes
unended = codes "0" ++ (crlf ++ (codes "x:y" ++ (crlf ++ (crlf ++ codes "z"))))

unended-broken :
    parse_aws_chunked unended
    ≡ broken
        (record { body = []; chunks = [] ∷ []; signatures = [] ∷ []; trailers = [] })
        data_after_trailers
unfolding parse_aws_chunked chunk_loop find_crlf read_header cut trim_space parse_int16 equal_fold
    same read_trailers canonical_key has_prefix
unended-broken = refl
