-- ===== src/Tags/Keys/Steps.antt =====
-- What the scan for tags does at the parts of a printed condition.
use mirror_cloud.Common.{
  ℕ, ◌≤◌, ◌≡◌, refl, ap, ◌∙◌, Bool, true, false, ◌==◌, List, [], ◌∷◌, ◌++◌, drop, length,
  length-drop, Bool-cases, inl, inr, arith,
}
use mirror_cloud.Bytes.{Bytes, has_byte}
use mirror_cloud.Tags.{TagOp, differs, at_least, at_most, equal, above, below, is_ident}
use mirror_cloud.Tags.Print.{op_text, escape}
use mirror_cloud.Tags.Keys.{span_to, add_key, other_byte, piece_at, scan_keys}
use mirror_cloud.Tags.Keys.Fuel.{
  after_piece, scan_keys-suc, scan_keys-fuel, add_key-ext, length-span_to,
}

-- The scan with a turn for each byte.
abbrev pub now_at : Bool → List Bytes → Bytes → List Bytes
now_at w seen s = scan_keys (length s) w seen s

pub other :
    (w : Bool) (seen : List Bytes) (c : ℕ) (s : Bytes)
    → piece_at c w ≡ other_byte
    → now_at w seen (c ∷ s) ≡ now_at (is_ident c) seen s
other w seen c s h =
    scan_keys-suc (length s) w seen c s ∙ ap (λ p. after_piece (length s) p seen c s) h

pub after_quote : (q : ℕ) (s : Bytes) → length (drop 1 (span_to q s).1) ≤ length s
after_quote q s = omega (arith, length-drop 1 (span_to q s).1, length-span_to q s)

pub literal_step :
    (w : Bool) (seen : List Bytes) (s : Bytes)
    → now_at w seen (b'\'' ∷ s) ≡ now_at false seen (drop 1 (span_to b'\'' s).1)
literal_step w seen s =
    scan_keys-suc (length s) w seen b'\'' s
    ∙ scan_keys-fuel (length s) (length (drop 1 (span_to b'\'' s).1)) false seen
        (drop 1 (span_to b'\'' s).1) (after_quote b'\'' s) (omega arith)

pub quoted_step :
    (w : Bool) (seen : List Bytes) (s : Bytes)
    → now_at w seen (b'"' ∷ s)
      ≡ add_key (span_to b'"' s).0 seen (λ now. now_at false now (drop 1 (span_to b'"' s).1))
quoted_step w seen s =
    scan_keys-suc (length s) w seen b'"' s
    ∙ add_key-ext (span_to b'"' s).0 seen _ _ (λ now.
      scan_keys-fuel (length s) (length (drop 1 (span_to b'"' s).1)) false now
        (drop 1 (span_to b'"' s).1) (after_quote b'"' s) (omega arith))

pub escape_quote :
    (c : ℕ) (v r : Bytes) → c == b'\'' ≡ true → escape (c ∷ v) r ≡ b'\'' ∷ b'\'' ∷ escape v r
unfolding escape
escape_quote c v r h = rw h refl

pub escape_other : (c : ℕ) (v r : Bytes) → c == b'\'' ≡ false → escape (c ∷ v) r ≡ c ∷ escape v r
unfolding escape
escape_other c v r h = rw h refl

pub span_to_other : (q c : ℕ) (s : Bytes) → c == q ≡ false → (span_to q (c ∷ s)).1 ≡ (span_to q s).1
unfolding span_to
span_to_other q c s h = rw h refl

pub span_to_quote : (s : Bytes) → (span_to b'\'' (b'\'' ∷ s)).1 ≡ b'\'' ∷ s
unfolding span_to
span_to_quote s = refl

-- What is scanned after the quote of a literal.
abbrev pub in_literal : List Bytes → Bytes → List Bytes
in_literal seen s = now_at false seen (drop 1 (span_to b'\'' s).1)

-- A literal is passed over, with the quotes in it.
pub literal_end :
    (seen : List Bytes) (v r : Bytes) → in_literal seen (escape v (b'\'' ∷ r)) ≡ now_at false seen r
literal_end seen [] r = unfold escape span_to in refl
literal_end seen (c ∷ v) r = elim (Bool-cases (c == b'\'')) [
  | inl h ↦
      ap (in_literal seen) (escape_quote c v (b'\'' ∷ r) h)
      ∙ ap (λ t. now_at false seen (drop 1 t)) (span_to_quote (b'\'' ∷ escape v (b'\'' ∷ r)))
      ∙ literal_step false seen (escape v (b'\'' ∷ r))
      ∙ literal_end seen v r
  | inr h ↦
      ap (in_literal seen) (escape_other c v (b'\'' ∷ r) h)
      ∙ ap (λ t. now_at false seen (drop 1 t)) (span_to_other b'\'' c (escape v (b'\'' ∷ r)) h)
      ∙ literal_end seen v r
]

pub after_op_end :
    (seen : List Bytes) (v r : Bytes)
    → now_at false seen (b'\'' ∷ escape v (b'\'' ∷ r)) ≡ now_at false seen r
after_op_end seen v r = literal_step false seen (escape v (b'\'' ∷ r)) ∙ literal_end seen v r

-- After an operator comes the literal.
pub after_op :
    (w : Bool) (seen : List Bytes) (op : TagOp) (v r : Bytes)
    → now_at w seen (op_text op (b'\'' ∷ escape v (b'\'' ∷ r))) ≡ now_at false seen r
unfolding op_text
after_op w seen differs v r =
    other w seen 60 (62 ∷ b'\'' ∷ escape v (b'\'' ∷ r)) refl
    ∙ other false seen 62 (b'\'' ∷ escape v (b'\'' ∷ r)) refl
    ∙ after_op_end seen v r
after_op w seen at_least v r =
    other w seen 62 (61 ∷ b'\'' ∷ escape v (b'\'' ∷ r)) refl
    ∙ other false seen 61 (b'\'' ∷ escape v (b'\'' ∷ r)) refl
    ∙ after_op_end seen v r
after_op w seen at_most v r =
    other w seen 60 (61 ∷ b'\'' ∷ escape v (b'\'' ∷ r)) refl
    ∙ other false seen 61 (b'\'' ∷ escape v (b'\'' ∷ r)) refl
    ∙ after_op_end seen v r
after_op w seen equal v r =
    other w seen 61 (b'\'' ∷ escape v (b'\'' ∷ r)) refl ∙ after_op_end seen v r
after_op w seen above v r =
    other w seen 62 (b'\'' ∷ escape v (b'\'' ∷ r)) refl ∙ after_op_end seen v r
after_op w seen below v r =
    other w seen 60 (b'\'' ∷ escape v (b'\'' ∷ r)) refl ∙ after_op_end seen v r

pub span_to-append :
    (k t : Bytes) → has_byte b'"' k ≡ false → span_to b'"' (k ++ (b'"' ∷ t)) ≡ (k, b'"' ∷ t)
unfolding span_to has_byte
span_to-append [] t h = refl
span_to-append (c ∷ k) t h = ground (arith, h, span_to-append k t)
