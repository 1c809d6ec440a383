-- ===== src/Iam/Glob/Ends.antt =====
-- The ends of a text that the rest of a pattern matches, for globMatch
-- (internal/services/aws/iam/authorizer.go).
use mirror_cloud.Common.{
  ℕ, zero, suc, ◌≤◌, ◌≡◌, refl, sym, ◌∙◌, Bool, true, false, ◌||◌, [], ◌∷◌, ◌++◌, some, ◌==◌,
  if◌then◌else◌, arith, Bool-cases, inl, inr, length, drop, drop-append_length,
}
use mirror_cloud.Bytes.{Bytes, has_byte}
use mirror_cloud.Iam.Glob.{star_byte, glob, some_end}
use mirror_cloud.Iam.Glob.Sound.{later, glob-cons, some_end-cons}

pub glob-cons_nil :
    (x : ℕ) (p : Bytes) → glob (x ∷ p) [] ≡ (if x == star_byte then glob p [] else false)
unfolding glob some_end
glob-cons_nil x p = refl

pub glob-star : (p s : Bytes) → glob (star_byte ∷ p) s ≡ some_end (glob p) s
unfolding glob
glob-star p s = refl

pub has_byte-cons : (b x : ℕ) (w : Bytes) → has_byte b (x ∷ w) ≡ (x == b || has_byte b w)
unfolding has_byte
has_byte-cons b x w = refl

pub has_byte-nil : (b : ℕ) → has_byte b [] ≡ false
unfolding has_byte
has_byte-nil b = refl

-- A pattern that begins with bytes other than a star takes as many bytes of the text.
pub glob-append :
    (w t s : Bytes)
    → has_byte star_byte w ≡ false
    → glob (w ++ t) s ≡ true
    → glob t (drop (length w) s) ≡ true
glob-append [] t s n h = h
glob-append (x ∷ w) t [] n h = ground (arith, glob-cons_nil x (w ++ t), has_byte-cons star_byte x w)
glob-append (x ∷ w) t (c ∷ s) n h =
    glob-append w t s (ground (arith, has_byte-cons star_byte x w))
      (ground (arith, glob-cons x (w ++ t) c s, has_byte-cons star_byte x w))

pub some_end-drop :
    (f : Bytes → Bool) (k : ℕ) (s : Bytes)
    → some_end f (drop (suc k) s) ≡ true
    → some_end f (drop k s) ≡ true
unfolding some_end
some_end-drop f zero [] h = h
some_end-drop f zero (c ∷ s) h = ground arith
some_end-drop f (suc k) [] h = h
some_end-drop f (suc k) (c ∷ s) h = some_end-drop f k s h

pub later-some_end : (q r : Bytes) → later (some (q, r)) ≡ true → some_end (glob q) r ≡ true
unfolding later some_end
later-some_end q [] h = ground arith
later-some_end q (d ∷ r) h = ground arith

-- A later end that the pattern from before a star matches has an end that what follows matches.
pub some_end-append :
    (w p r : Bytes)
    → has_byte star_byte w ≡ false
    → some_end (glob (w ++ star_byte ∷ p)) r ≡ true
    → some_end (glob p) (drop (length w) r) ≡ true
some_end-append w p [] n h =
    sym (glob-star p (drop (length w) []))
    ∙ glob-append w (star_byte ∷ p) [] n (unfold some_end in h)
some_end-append w p (c ∷ r) n h = elim (Bool-cases (glob (w ++ star_byte ∷ p) (c ∷ r))) [
  | inl t ↦ sym (glob-star p (drop (length w) (c ∷ r))) ∙ glob-append w (star_byte ∷ p) (c ∷ r) n t
  | inr f ↦
      some_end-drop (glob p) (length w) (c ∷ r)
        (some_end-append w p r n (ground (arith, some_end-cons (w ++ star_byte ∷ p) c r)))
]

-- When another star is met, the one before it is needed no more.
pub older_star :
    (w v p : Bytes) (s : Bytes)
    → length w ≡ length v
    → has_byte star_byte w ≡ false
    → later (some (w ++ star_byte ∷ p, v ++ s)) ≡ true
    → some_end (glob p) s ≡ true
older_star w v p s e n h =
    rw (sym (drop-append_length v s), sym e)
      (some_end-append w p (v ++ s) n (later-some_end (w ++ star_byte ∷ p) (v ++ s) h))

pub has_byte-append : (b : ℕ) (v s : Bytes) → has_byte b (v ++ s) ≡ (has_byte b v || has_byte b s)
unfolding has_byte
has_byte-append b [] s = refl
has_byte-append b (x ∷ v) s = ground (arith, has_byte-append b v s)

pub drop_all : (k : ℕ) (s : Bytes) → length s ≤ k → drop k s ≡ []
drop_all zero [] h = refl
drop_all zero (c ∷ s) h = absurd (omega arith)
drop_all (suc k) [] h = refl
drop_all (suc k) (c ∷ s) h = drop_all k s (omega arith)

-- Where the text is no longer than what stands before p, what p is left with is nothing.
pub some_end_last :
    (w p r : Bytes)
    → has_byte star_byte w ≡ false
    → length r ≤ length w
    → some_end (glob (w ++ p)) r ≡ true
    → glob p [] ≡ true
some_end_last w p [] n l h =
    rw (sym (drop_all (length w) [] (omega arith))) (glob-append w p [] n (unfold some_end in h))
some_end_last w p (c ∷ r) n l h = elim (Bool-cases (glob (w ++ p) (c ∷ r))) [
  | inl t ↦ rw (sym (drop_all (length w) (c ∷ r) l)) (glob-append w p (c ∷ r) n t)
  | inr f ↦ some_end_last w p r n (omega arith) (ground (arith, some_end-cons (w ++ p) c r))
]
