-- ===== src/Tags/Keys/Fuel.antt =====
-- The scan for the tags of a condition takes a turn for each byte at most.
use mirror_cloud.Common.{
  ℕ, zero, suc, ◌≤◌, ◌≡◌, refl, sym, ap, ◌∙◌, fun_ext, Bool, true, false, not, List, [], ◌∷◌, drop,
  length, length-drop, arith,
}
use mirror_cloud.Bytes.{Bytes, is_empty}
use mirror_cloud.Tags.{is_ident, span_ident}
use mirror_cloud.Tags.Lengths.{length-span_ident}
use mirror_cloud.Tags.Keys.{
  span_to, add_key, is_key, Piece, literal_from, quoted_from, parameter_from, word_from, other_byte,
  piece_at, scan_keys,
}

pub length-span_to : (q : ℕ) (s : Bytes) → length (span_to q s).1 ≤ length s
unfolding span_to
length-span_to q [] = omega arith
length-span_to q (c ∷ s) = ground (arith, length-span_to q s)

word-is_ident : (c : ℕ) (w : Bool) → piece_at c w ≡ word_from → is_ident c ≡ true
word-is_ident c w h = ground (arith, h)

length-word : (c : ℕ) (s : Bytes) → is_ident c ≡ true → length (span_ident (c ∷ s)).1 ≤ length s
unfolding span_ident
length-word c s h = rw h (length-span_ident s)

-- The scan after a byte, by what is done at it.
abbrev pub after_piece : ℕ → Piece → List Bytes → ℕ → Bytes → List Bytes
after_piece f literal_from seen c s = scan_keys f false seen (drop 1 (span_to b'\'' s).1)
after_piece f quoted_from seen c s =
    add_key (span_to b'"' s).0 seen (λ now. scan_keys f false now (drop 1 (span_to b'"' s).1))
after_piece f parameter_from seen c s =
    scan_keys f (not (is_empty (span_ident s).0)) seen (span_ident s).1
after_piece f word_from seen c s = elim (is_key (span_ident (c ∷ s))) [
  | true ↦ add_key (span_ident (c ∷ s)).0 seen (λ now. scan_keys f true now (span_ident (c ∷ s)).1)
  | false ↦ scan_keys f true seen (span_ident (c ∷ s)).1
]
after_piece f other_byte seen c s = scan_keys f (is_ident c) seen s

pub scan_keys-suc :
    (f : ℕ) (w : Bool) (seen : List Bytes) (c : ℕ) (s : Bytes)
    → scan_keys (suc f) w seen (c ∷ s) ≡ after_piece f (piece_at c w) seen c s
unfolding scan_keys
scan_keys-suc f w seen c s = by_piece (piece_at c w)
  where
    by_piece :
        (p : Piece)
        → elim p [
          | literal_from ↦ scan_keys f false seen (drop 1 (span_to b'\'' s).1)
          | quoted_from ↦
              add_key
                (span_to b'"' s).0
                seen
                (λ now. scan_keys f false now (drop 1 (span_to b'"' s).1))
          | parameter_from ↦ scan_keys f (not (is_empty (span_ident s).0)) seen (span_ident s).1
          | word_from ↦ elim (is_key (span_ident (c ∷ s))) [
            | true ↦
                add_key
                  (span_ident (c ∷ s)).0
                  seen
                  (λ now. scan_keys f true now (span_ident (c ∷ s)).1)
            | false ↦ scan_keys f true seen (span_ident (c ∷ s)).1
          ]
          | other_byte ↦ scan_keys f (is_ident c) seen s
        ]
          ≡ after_piece f p seen c s
    by_piece literal_from = refl
    by_piece quoted_from = refl
    by_piece parameter_from = refl
    by_piece word_from = refl
    by_piece other_byte = refl

pub add_key-ext :
    (key : Bytes) (seen : List Bytes) (n m : List Bytes → List Bytes)
    → ((now : List Bytes) → n now ≡ m now)
    → add_key key seen n ≡ add_key key seen m
add_key-ext key seen n m h = ap (add_key key seen) (fun_ext h)

abbrev Agree : ℕ → ℕ → Type 0
Agree f g =
    (w : Bool) (seen : List Bytes) (s : Bytes)
    → length s ≤ f
    → length s ≤ g
    → scan_keys f w seen s ≡ scan_keys g w seen s

scan_keys-nil : (f : ℕ) (w : Bool) (seen : List Bytes) → scan_keys f w seen [] ≡ []
unfolding scan_keys
scan_keys-nil zero w seen = refl
scan_keys-nil (suc f) w seen = refl

word_agrees :
    (f g : ℕ) (b : Bool) (key : Bytes) (seen : List Bytes) (t : Bytes)
    → Agree f g
    → length t ≤ f
    → length t ≤ g
    → elim b [
      | true ↦ add_key key seen (λ now. scan_keys f true now t)
      | false ↦ scan_keys f true seen t
    ]
      ≡ elim b [
        | true ↦ add_key key seen (λ now. scan_keys g true now t)
        | false ↦ scan_keys g true seen t
      ]
word_agrees f g true key seen t ih l m = add_key-ext key seen _ _ (λ now. ih true now t l m)
word_agrees f g false key seen t ih l m = ih true seen t l m

piece_agrees :
    (f g : ℕ) (p : Piece) (w : Bool) (seen : List Bytes) (c : ℕ) (s : Bytes)
    → Agree f g
    → length s ≤ f
    → length s ≤ g
    → piece_at c w ≡ p
    → after_piece f p seen c s ≡ after_piece g p seen c s
piece_agrees f g literal_from w seen c s ih l m h =
    let t = drop 1 (span_to b'\'' s).1 in
    let short : length t ≤ length s =
      omega (arith, length-drop 1 (span_to b'\'' s).1, length-span_to b'\'' s) in
    ih false seen t (omega (arith, l, short)) (omega (arith, m, short))
piece_agrees f g quoted_from w seen c s ih l m h =
    let t = drop 1 (span_to b'"' s).1 in
    let short : length t ≤ length s =
      omega (arith, length-drop 1 (span_to b'"' s).1, length-span_to b'"' s) in
    add_key-ext (span_to b'"' s).0 seen _ _
      (λ now. ih false now t (omega (arith, l, short)) (omega (arith, m, short)))
piece_agrees f g parameter_from w seen c s ih l m h =
    ih _ seen (span_ident s).1 (omega (arith, l, length-span_ident s))
      (omega (arith, m, length-span_ident s))
piece_agrees f g word_from w seen c s ih l m h =
    let short = length-word c s (word-is_ident c w h) in
    word_agrees f g (is_key (span_ident (c ∷ s))) (span_ident (c ∷ s)).0 seen (span_ident (c ∷ s)).1
      ih (omega (arith, l, short)) (omega (arith, m, short))
piece_agrees f g other_byte w seen c s ih l m h = ih (is_ident c) seen s l m

-- A turn for each byte is enough: more turns find no other keys.
pub scan_keys-fuel : (f g : ℕ) → Agree f g
scan_keys-fuel f g w seen [] l m = scan_keys-nil f w seen ∙ sym (scan_keys-nil g w seen)
scan_keys-fuel zero g w seen (c ∷ s) l m = absurd (omega (arith, l))
scan_keys-fuel (suc f) zero w seen (c ∷ s) l m = absurd (omega (arith, m))
scan_keys-fuel (suc f) (suc g) w seen (c ∷ s) l m =
    scan_keys-suc f w seen c s
    ∙ piece_agrees f g (piece_at c w) w seen c s (scan_keys-fuel f g) (omega (arith, l))
        (omega (arith, m)) refl
    ∙ sym (scan_keys-suc g w seen c s)
