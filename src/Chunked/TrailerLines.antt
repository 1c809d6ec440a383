-- ===== src/Chunked/TrailerLines.antt =====
-- The lines of an aws-chunked body and its trailers (internal/edge/chunked.go).
use mirror_cloud.Common.{
  ℕ, zero, suc, Bool, true, false, not, ◌&&◌, ◌||◌, List, [], ◌∷◌, Option, none, some, ◌==◌, leb,
  ◌-◌, length, if◌then◌else◌,
}
use mirror_cloud.Bytes.{Bytes, codes, is_empty, cut, has_byte}
use mirror_cloud.Bytes.Fold.{lower_byte}
use mirror_cloud.Bytes.Words.{trim_space}
use mirror_cloud.Chunked.HeaderLine.{
  ChunkError, missing_trailer_end, data_after_trailers, malformed_trailer,
}

abbrev pub crlf : Bytes
crlf = 13 ∷ 10 ∷ []

abbrev pub ends_line : ℕ → Bytes → Bool
ends_line c [] = false
ends_line c (d ∷ s) = c == 13 && d == 10

abbrev pub tail : Bytes → Bytes
tail [] = []
tail (_ ∷ s) = s

-- The text before the first line end and the text after it.
unfoldable pub find_crlf : Bytes → Option (Bytes × Bytes)
find_crlf [] = none
find_crlf (c ∷ s) =
    let further = find_crlf s in
    if ends_line c s
    then some ([], tail s)
    else elim further [ none ↦ none | some (line, rest) ↦ some (c ∷ line, rest) ]

abbrev pub Trailer : Type 0
Trailer = Bytes × Bytes

pub data Trailers : Type 0 where
  ok : List Trailer → Trailers
  err : ChunkError → Trailers

abbrev upper_byte : ℕ → ℕ
upper_byte c = if leb 97 c && leb c 122 then c - 32 else c

-- The bytes of a header name.
abbrev is_token : ℕ → Bool
is_token c =
    leb 48 c && leb c 57
    || leb 65 c && leb c 90
    || leb 97 c && leb c 122
    || has_byte c (codes "!#$%&'*+-.^_`|~")

all_tokens : Bytes → Bool
unfolding has_byte
all_tokens [] = true
all_tokens (c ∷ s) = is_token c && all_tokens s

capitalise : Bool → Bytes → Bytes
capitalise first [] = []
capitalise first (c ∷ s) = (if first then upper_byte c else lower_byte c) ∷ capitalise (c == 45) s

-- The key under which http.Header.Add files a name.
unfoldable pub canonical_key : Bytes → Bytes
unfolding all_tokens capitalise
canonical_key name = if all_tokens name then capitalise true name else name

-- trailers.Add, before what the rest of the loop adds.
abbrev pub add_trailer : Bytes → Bytes → Trailers → Trailers
add_trailer name value (err e) = err e
add_trailer name value (ok ts) = ok ((canonical_key name, value) ∷ ts)

unfoldable pub trailer_turn : (Bytes → Trailers) → Bytes → Bytes → Trailers
trailer_turn loop [] rest = if is_empty rest then ok [] else err data_after_trailers
trailer_turn loop (c ∷ line) rest =
    let (name, value, found) = cut 58 (c ∷ line) in
    if not found || is_empty (trim_space name)
    then err malformed_trailer
    else add_trailer (trim_space name) (trim_space value) (loop rest)

unfoldable pub trailer_loop : ℕ → Bytes → Trailers
unfolding trailer_turn
trailer_loop zero rest = err missing_trailer_end
trailer_loop (suc fuel) rest = elim (find_crlf rest) [
  | none ↦ err missing_trailer_end
  | some (line, rest') ↦ trailer_turn (trailer_loop fuel) line rest'
]

-- parseAWSChunkedTrailers; each turn takes a line, so its length and one are turns enough.
unfoldable pub read_trailers : Bytes → Trailers
unfolding trailer_loop
read_trailers [] = ok []
read_trailers (c ∷ rest) = trailer_loop (suc (suc (length rest))) (c ∷ rest)
