-- ===== src/Chunked/Trailing/Read.antt =====
-- The trailers that parseAWSChunkedTrailers (internal/edge/chunked.go) accepts are lines of the
-- grammar, and the other way round.
use mirror_cloud.Common.{
  ℕ, zero, suc, ◌≡◌, ◌≢◌, ◌∙◌, refl, sym, ap, subst, Bool, true, false, List, [], ◌∷◌, ◌++◌, Option,
  none, some, arith, inl, inr, Bool-cases, if◌then◌else◌, length,
}
use mirror_cloud.Bytes.{Bytes, cut, has_byte, is_empty}
use mirror_cloud.Bytes.Parts.{append-cut}
use mirror_cloud.Bytes.Words.{trim_space}
use mirror_cloud.Chunked.HeaderLine.{missing_trailer_end, data_after_trailers}
use mirror_cloud.Chunked.TrailerLines.{
  find_crlf, Trailer, Trailers, ok, err, add_trailer, canonical_key, trailer_loop, read_trailers,
}
use mirror_cloud.Chunked.Grammar.{no_cut, cut-parts}
use mirror_cloud.Chunked.Trailing.{
  Trailing, trailers_end, trailer, AfterChunks, line_turn, trailer_turn-line, trailer_turn-end,
  turns, trailer_loop-turns, Trailing-loop,
}

add_trailer-ok :
    (name text : Bytes) (later : Trailers) (trailers : List Trailer)
    → add_trailer name text later ≡ ok trailers
    → (more : List Trailer) × (later ≡ ok more) × ((canonical_key name, text) ∷ more ≡ trailers)
add_trailer-ok name text (ok more) trailers h = (more, refl, cc)
add_trailer-ok name text (err e) trailers h = absurd cc

named : (s : Bytes) → is_empty s ≡ false → s ≢ []
named [] h e = absurd cc
named (c ∷ s) h e = cc

-- A line that is accepted has a name and a colon.
line_ok :
    (later : Trailers) (name text : Bytes) (found : Bool) (trailers : List Trailer)
    → line_turn later (name, text, found) ≡ ok trailers
    → (found ≡ true)
      × (trim_space name ≢ [])
      × (add_trailer (trim_space name) (trim_space text) later ≡ ok trailers)
unfolding line_turn
line_ok later name text false trailers h = absurd cc
line_ok later name text true trailers h = elim (Bool-cases (is_empty (trim_space name))) [
  | inl e ↦ absurd (cc (rw e at h))
  | inr e ↦ (refl, named (trim_space name) e, rw e at h)
]

end_ok :
    (rest : Bytes) (trailers : List Trailer)
    → (if is_empty rest then ok [] else err data_after_trailers) ≡ ok trailers
    → (rest ≡ []) × ([] ≡ trailers)
end_ok [] trailers h = (refl, cc)
end_ok (c ∷ rest) trailers h = absurd cc

has_colon : (line : Bytes) → (cut b':' line).2 ≡ true → has_byte b':' line ≡ true
has_colon line h = elim (Bool-cases (has_byte b':' line)) [
  | inl y ↦ y
  | inr n ↦ cc (h, ap (λ (p : Bytes × Bytes × Bool). p.2) (no_cut b':' line n))
]

Reads : ℕ → Type 0
Reads fuel =
    (raw : Bytes) (trailers : List Trailer)
    → trailer_loop fuel raw ≡ ok trailers
    → Trailing raw trailers

of_line :
    (fuel c : ℕ) (raw line rest : Bytes) (trailers : List Trailer)
    → Reads fuel
    → find_crlf raw ≡ some (c ∷ line, rest)
    → line_turn (trailer_loop fuel rest) (cut b':' (c ∷ line)) ≡ ok trailers
    → Trailing raw trailers
unfolding Reads
of_line fuel c raw line rest trailers reads e h =
    let (name, text, found) = cut b':' (c ∷ line) in
    let (y, n, k) = line_ok (trailer_loop fuel rest) name text found trailers h in
    let (more, l, q) =
      add_trailer-ok (trim_space name) (trim_space text) (trailer_loop fuel rest) trailers k in
    let colon = has_colon (c ∷ line) y in
    subst (Trailing raw) q (
      trailer name text
        (e ∙ ap (λ (s : Bytes). some (s, rest)) (sym (append-cut b':' (c ∷ line) colon)))
        (cut-parts b':' (c ∷ line) colon).1 n (reads rest more l))

of_turns :
    (fuel : ℕ) (raw : Bytes) (trailers : List Trailer) (o : Option (Bytes × Bytes))
    → Reads fuel
    → find_crlf raw ≡ o
    → turns fuel o ≡ ok trailers
    → Trailing raw trailers
unfolding turns
of_turns fuel raw trailers none reads e h = absurd cc
of_turns fuel raw trailers (some ([], rest)) reads e h =
    let (nothing, last) =
      end_ok rest trailers (sym (trailer_turn-end (trailer_loop fuel) rest) ∙ h) in
    subst (Trailing raw) last (trailers_end (e ∙ ap (λ (s : Bytes). some ([], s)) nothing))
of_turns fuel raw trailers (some (c ∷ line, rest)) reads e h =
    of_line fuel c raw line rest trailers reads e
      (sym (trailer_turn-line (trailer_loop fuel) c line rest) ∙ h)

no_turns : (raw : Bytes) → trailer_loop 0 raw ≡ err missing_trailer_end
unfolding trailer_loop
no_turns raw = refl

Reads-all : (fuel : ℕ) → Reads fuel
unfolding Reads
Reads-all zero raw trailers h = absurd (cc (no_turns raw, h))
Reads-all (suc fuel) raw trailers h =
    of_turns fuel raw trailers (find_crlf raw) (unfold Reads in Reads-all fuel) refl
      (sym (trailer_loop-turns fuel raw) ∙ h)

no_line : (raw line rest : Bytes) → find_crlf raw ≡ some (line, rest) → raw ≢ []
unfolding find_crlf
no_line [] line rest h e = absurd cc
no_line (c ∷ raw) line rest h e = cc

Trailing-some : {raw : Bytes} {trailers : List Trailer} → Trailing raw trailers → raw ≢ []
Trailing-some (trailers_end {raw} e) = no_line raw [] [] e
Trailing-some (trailer {raw} {rest} name text e n k t) = no_line raw (name ++ (b':' ∷ text)) rest e

pub AfterChunks-read :
    (rest : Bytes) (trailers : List Trailer)
    → AfterChunks rest trailers
    → read_trailers rest ≡ ok trailers
unfolding read_trailers
AfterChunks-read [] trailers (inl (e, n)) = ap (λ k. ok k) (sym n)
AfterChunks-read (c ∷ rest) trailers (inl (e, n)) = absurd cc
AfterChunks-read [] trailers (inr t) = absurd (Trailing-some t refl)
AfterChunks-read (c ∷ rest) trailers (inr t) =
    Trailing-loop (suc (suc (length rest))) t (omega arith)

pub read-AfterChunks :
    (rest : Bytes) (trailers : List Trailer)
    → read_trailers rest ≡ ok trailers
    → AfterChunks rest trailers
unfolding read_trailers Reads
read-AfterChunks [] trailers h = inl (refl, cc)
read-AfterChunks (c ∷ rest) trailers h =
    inr (Reads-all (suc (suc (length rest))) (c ∷ rest) trailers h)
