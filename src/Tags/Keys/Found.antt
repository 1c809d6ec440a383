-- ===== src/Tags/Keys/Found.antt =====
-- The scan finds the tags of a printed condition.
use mirror_cloud.Common.{
  ℕ, suc, ◌≤◌, ◌≡◌, refl, sym, ap, ◌∙◌, fun_ext, Bool, true, false, not, List, [], ◌∷◌, ◌++◌, drop,
  keep_if, Bool-cases, inl, inr, if◌then◌else◌, length, length-append, arith,
}
use mirror_cloud.Bytes.{Bytes, codes, same, same_iff, is_empty, is_among}
use mirror_cloud.Bytes.Fold.{equal_fold, to_lower}
use mirror_cloud.Tags.{
  Operand, tag, container, TagOp, differs, at_least, at_most, equal, above, below, Expr, compare,
  negate, both, either, span_ident,
}
use mirror_cloud.Tags.Print.{print, operand_text, op_text, escape, IsQuotable}
use mirror_cloud.Tags.Keys.{add_key, is_key, word_from, piece_at, scan_keys, tag_expr_keys}
use mirror_cloud.Tags.Keys.Fuel.{after_piece, scan_keys-suc, scan_keys-fuel, add_key-ext}
use mirror_cloud.Tags.Keys.Steps.{now_at, other, quoted_step, after_op, span_to-append}

-- The keys of a condition, in order.
abbrev pub keys_of : Expr → List Bytes
keys_of (compare (tag k) op v) = k ∷ []
keys_of (compare container op v) = []
keys_of (negate e) = keys_of e
keys_of (both a b) = keys_of a ++ keys_of b
keys_of (either a b) = keys_of a ++ keys_of b

-- The keys not seen before, and those found after them.
abbrev gather : List Bytes → List Bytes → (List Bytes → List Bytes) → List Bytes
gather seen [] next = next seen
gather seen (k ∷ ks) next = add_key k seen (λ now. gather now ks next)

gather-append :
    (seen ks ls : List Bytes) (next : List Bytes → List Bytes)
    → gather seen (ks ++ ls) next ≡ gather seen ks (λ now. gather now ls next)
gather-append seen [] ls next = refl
gather-append seen (k ∷ ks) ls next = add_key-ext k seen _ _ (λ now. gather-append now ks ls next)

gather-ext :
    (seen ks : List Bytes) (n m : List Bytes → List Bytes)
    → ((now : List Bytes) → n now ≡ m now)
    → gather seen ks n ≡ gather seen ks m
gather-ext seen ks n m h = ap (gather seen ks) (fun_ext h)

container_span :
    (op : TagOp) (t : Bytes)
    → span_ident (codes "container" ++ op_text op t) ≡ (codes "container", op_text op t)
unfolding span_ident op_text
container_span differs t = refl
container_span at_least t = refl
container_span at_most t = refl
container_span equal t = refl
container_span above t = refl
container_span below t = refl

length-longer : (s : Bytes) → length s ≤ length (codes "container" ++ s)
length-longer s = omega arith

found_compare :
    (key : Operand) (op : TagOp) (v r : Bytes) (seen : List Bytes)
    → IsQuotable (compare key op v)
    → now_at false seen (print (compare key op v) r)
      ≡ gather seen (keys_of (compare key op v)) (λ now. now_at false now r)
unfolding print operand_text
found_compare (tag k) op v r seen q =
    let t : Bytes = op_text op (b'\'' ∷ escape v (b'\'' ∷ r)) in
    quoted_step false seen (k ++ (b'"' ∷ t))
    ∙ ap (λ p. add_key p.0 seen (λ now. now_at false now (drop 1 p.1))) (span_to-append k t q)
    ∙ add_key-ext k seen _ _ (λ now. after_op false now op v r)
found_compare container op v r seen q =
    let t : Bytes = op_text op (b'\'' ∷ escape v (b'\'' ∷ r)) in
    let n = length (codes "container" ++ t) in
    scan_keys-suc n false seen b'@' (codes "container" ++ t)
    ∙ ap (λ p. scan_keys n (not (is_empty p.0)) seen p.1)
        (container_span op (b'\'' ∷ escape v (b'\'' ∷ r)))
    ∙ scan_keys-fuel n (length t) true seen t (length-longer t) (omega arith)
    ∙ after_op true seen op v r

abbrev word_turn : ℕ → List Bytes → Bytes × Bytes → Bool → List Bytes
word_turn n seen p b = elim b [
  | true ↦ add_key p.0 seen (λ now. scan_keys n true now p.1)
  | false ↦ scan_keys n true seen p.1
]

opening :
    (w : Bool) (seen : List Bytes) (t : Bytes) → now_at w seen (32 ∷ b'(' ∷ t) ≡ now_at false seen t
opening true seen t = other true seen 32 (b'(' ∷ t) refl ∙ other false seen b'(' t refl
opening false seen t = other false seen 32 (b'(' ∷ t) refl ∙ other false seen b'(' t refl

-- A keyword before a parenthesis is passed over.
keyword_step :
    (c : ℕ) (word t : Bytes) (seen : List Bytes)
    → piece_at c false ≡ word_from
    → span_ident (c ∷ (word ++ (32 ∷ b'(' ∷ t))) ≡ (c ∷ word, 32 ∷ b'(' ∷ t)
    → is_key (c ∷ word, 32 ∷ b'(' ∷ t) ≡ false
    → now_at false seen (c ∷ (word ++ (32 ∷ b'(' ∷ t))) ≡ now_at false seen t
keyword_step c word t seen p k n =
    let s : Bytes = word ++ (32 ∷ b'(' ∷ t) in
    scan_keys-suc (length s) false seen c s
    ∙ ap (λ q. after_piece (length s) q seen c s) p
    ∙ ap (λ q. word_turn (length s) seen q (is_key q)) k
    ∙ ap (word_turn (length s) seen (c ∷ word, 32 ∷ b'(' ∷ t)) n
    ∙ scan_keys-fuel (length s) (suc (suc (length t))) true seen (32 ∷ b'(' ∷ t)
        (omega (arith, length-append word (32 ∷ b'(' ∷ t))) (omega arith)
    ∙ opening true seen t

not_step :
    (seen : List Bytes) (t : Bytes) → now_at false seen (codes "not (" ++ t) ≡ now_at false seen t
not_step seen t =
    keyword_step b'n' (codes "ot") t seen refl (unfold span_ident in refl)
      (unfold equal_fold to_lower same in refl)

and_step :
    (seen : List Bytes) (t : Bytes) → now_at false seen (codes ") and (" ++ t) ≡ now_at false seen t
and_step seen t =
    other false seen b')' (codes " and (" ++ t) refl
    ∙ other false seen 32 (codes "and (" ++ t) refl
    ∙ keyword_step b'a' (codes "nd") t seen refl (unfold span_ident in refl)
        (unfold equal_fold to_lower same in refl)

or_step :
    (seen : List Bytes) (t : Bytes) → now_at false seen (codes ") or (" ++ t) ≡ now_at false seen t
or_step seen t =
    other false seen b')' (codes " or (" ++ t) refl
    ∙ other false seen 32 (codes "or (" ++ t) refl
    ∙ keyword_step b'o' (codes "r") t seen refl (unfold span_ident in refl)
        (unfold equal_fold to_lower same in refl)

closing : (seen : List Bytes) (r : Bytes) → now_at false seen (b')' ∷ r) ≡ now_at false seen r
closing seen r = other false seen b')' r refl

abbrev Finds : Expr → Type 0
Finds e =
    (seen : List Bytes) (r : Bytes)
    → now_at false seen (print e r) ≡ gather seen (keys_of e) (λ now. now_at false now r)

-- Two conditions with a keyword between.
two_found :
    (a b : Expr) (seen : List Bytes) (middle r : Bytes)
    → Finds a
    → Finds b
    → ((now : List Bytes)
        → now_at false now (middle ++ print b (b')' ∷ r)) ≡ now_at false now (print b (b')' ∷ r)))
    → now_at false seen (b'(' ∷ print a (middle ++ print b (b')' ∷ r)))
      ≡ gather seen (keys_of a ++ keys_of b) (λ now. now_at false now r)
two_found a b seen middle r p q h =
    other false seen b'(' (print a (middle ++ print b (b')' ∷ r))) refl
    ∙ p seen (middle ++ print b (b')' ∷ r))
    ∙ gather-ext seen (keys_of a) _ _ (λ now.
      h now ∙ q now (b')' ∷ r) ∙ gather-ext now (keys_of b) _ _ (λ later. closing later r))
    ∙ sym (gather-append seen (keys_of a) (keys_of b) (λ now. now_at false now r))

print-Finds : (e : Expr) → IsQuotable e → Finds e
unfolding print
print-Finds (compare key op v) q = λ seen r. found_compare key op v r seen q
print-Finds (negate e) q = λ seen r.
    not_step seen (print e (b')' ∷ r))
    ∙ print-Finds e q seen (b')' ∷ r)
    ∙ gather-ext seen (keys_of e) _ _ (λ now. closing now r)
print-Finds (both a b) (p, q) = λ seen r.
    two_found a b seen (codes ") and (") r (print-Finds a p) (print-Finds b q)
      (λ now. and_step now (print b (b')' ∷ r)))
print-Finds (either a b) (p, q) = λ seen r.
    two_found a b seen (codes ") or (") r (print-Finds a p) (print-Finds b q)
      (λ now. or_step now (print b (b')' ∷ r)))

-- The keys, each where it stands first: behind a key, it is left out.
unfoldable pub first_keys : List Bytes → List Bytes
first_keys [] = []
first_keys (k ∷ ks) = k ∷ keep_if (λ j. not (same k j)) (first_keys ks)

-- The keys that are not among those seen.
abbrev unseen : List Bytes → List Bytes → List Bytes
unseen seen ks = keep_if (λ j. not (is_among j seen)) ks

unseen_both :
    (k : Bytes) (seen ks : List Bytes)
    → unseen seen (keep_if (λ j. not (same k j)) ks) ≡ unseen (k ∷ seen) ks
unfolding is_among
unseen_both k seen [] = refl
unseen_both k seen (j ∷ ks) = ground (arith, unseen_both k seen ks, same_iff k j, same_iff j k)

unseen_again :
    (k : Bytes) (seen ks : List Bytes)
    → is_among k seen ≡ true
    → unseen (k ∷ seen) ks ≡ unseen seen ks
unfolding is_among
unseen_again k seen [] h = refl
unseen_again k seen (j ∷ ks) h =
    ground (arith, unseen_again k seen ks h, same_iff k j, same_iff j k, h)

add_key-by :
    (k : Bytes) (seen : List Bytes) (next : List Bytes → List Bytes) (b : Bool)
    → is_among k seen ≡ b
    → add_key k seen next ≡ elim b [ true ↦ next seen | false ↦ k ∷ next (k ∷ seen) ]
add_key-by k seen next b h =
    ap (λ (c : Bool). elim c [ true ↦ next seen | false ↦ k ∷ next (k ∷ seen) ]) h

unseen-by :
    (k : Bytes) (seen ks : List Bytes) (b : Bool)
    → is_among k seen ≡ b
    → unseen seen (k ∷ ks) ≡ (if not b then k ∷ unseen seen ks else unseen seen ks)
unseen-by k seen ks b h = ap (λ (c : Bool). if not c then k ∷ unseen seen ks else unseen seen ks) h

gather_step :
    (seen : List Bytes) (k : Bytes) (ks : List Bytes)
    → ((now : List Bytes) → gather now ks (λ _. []) ≡ unseen now (first_keys ks))
    → gather seen (k ∷ ks) (λ _. []) ≡ unseen seen (first_keys (k ∷ ks))
unfolding first_keys
gather_step seen k ks ih = elim (Bool-cases (is_among k seen)) [
  | inl e ↦
      add_key-by k seen (λ now. gather now ks (λ _. [])) true e
      ∙ ih seen
      ∙ sym (unseen_again k seen (first_keys ks) e)
      ∙ sym (unseen_both k seen (first_keys ks))
      ∙ sym (unseen-by k seen (keep_if (λ j. not (same k j)) (first_keys ks)) true e)
  | inr e ↦
      add_key-by k seen (λ now. gather now ks (λ _. [])) false e
      ∙ ap (λ l. k ∷ l) (ih (k ∷ seen) ∙ sym (unseen_both k seen (first_keys ks)))
      ∙ sym (unseen-by k seen (keep_if (λ j. not (same k j)) (first_keys ks)) false e)
]

gather-unseen : (seen ks : List Bytes) → gather seen ks (λ _. []) ≡ unseen seen (first_keys ks)
gather-unseen seen [] = unfold first_keys in refl
gather-unseen seen (k ∷ ks) = gather_step seen k ks (λ now. gather-unseen now ks)

unseen_none : (ks : List Bytes) → unseen [] ks ≡ ks
unfolding is_among
unseen_none [] = refl
unseen_none (k ∷ ks) = ap (λ l. k ∷ l) (unseen_none ks)

at_the_end : (now : List Bytes) → now_at false now [] ≡ []
unfolding scan_keys
at_the_end now = refl

-- The scan of `TagExprKeys` over a printed tag condition whose keys hold no double quote finds
-- exactly the keys that the condition compares, in their order and each only where it stands first.
pub tag_expr_keys-print :
    (e : Expr) → IsQuotable e → tag_expr_keys (print e []) ≡ first_keys (keys_of e)
unfolding tag_expr_keys
tag_expr_keys-print e q =
    print-Finds e q [] []
    ∙ gather-ext [] (keys_of e) _ _ at_the_end
    ∙ gather-unseen [] (keys_of e)
    ∙ unseen_none (first_keys (keys_of e))
