-- ===== src/Iam/Glob/Exact.antt =====
-- globMatch (internal/services/aws/iam/authorizer.go) is the meaning of the pattern on a text
-- without a star.
use mathlib.Core.List.{append_assoc}
use mirror_cloud.Common.{
  ℕ, zero, suc, ◌≤◌, ◌≡◌, refl, sym, ap, subst, ◌∙◌, true, false, ◌||◌, [], ◌∷◌, ◌++◌, none, some,
  ◌==◌, arith, Bool-cases, inl, inr, length, length-append,
}
use mirror_cloud.Bytes.{Bytes, has_byte}
use mirror_cloud.Iam.Glob.{
  Star, Turn, again, done, fits, star_byte, back, turn, glob_loop, glob_match, turns, glob,
  some_end,
}
use mirror_cloud.Iam.Glob.Sound.{
  later, means, means-back, glob-cons, later-some, glob-all_stars, some_end-cons, later-none,
}
use mirror_cloud.Iam.Glob.Fuel.{left, Fits, turn-Fits, turn-left, start-Fits, start-left}
use mirror_cloud.Iam.Glob.Ends.{
  has_byte-cons, has_byte-nil, later-some_end, older_star, has_byte-append, some_end_last,
}

-- What lies between the last star and the index, in the pattern and in the text.
unfoldable Ahead : Turn → Type 0
Ahead (done b) = Unit
Ahead (again p s none) = has_byte star_byte s ≡ false
Ahead (again p s (some (q, r))) =
    (w : Bytes) × (v : Bytes) × (q ≡ w ++ p)
    × (r ≡ v ++ s)
    × (length w ≡ length v)
    × (has_byte star_byte w ≡ false)
    × (has_byte star_byte r ≡ false)

Ahead-text : (p s : Bytes) (star : Star) → Ahead (again p s star) → has_byte star_byte s ≡ false
unfolding Ahead
Ahead-text p s none a = a
Ahead-text p s (some (q, r)) (w, v, eq, er, e, n, m) =
    ground (arith, ap (has_byte star_byte) er, has_byte-append star_byte v s)

back-Ahead : (p s : Bytes) (star : Star) → Ahead (again p s star) → Ahead (back star)
unfolding Ahead back
back-Ahead p s none a = tt
back-Ahead p s (some (q, [])) a = tt
back-Ahead p s (some (q, d ∷ r)) (w, v, eq, er, e, n, m) =
    let m' : has_byte star_byte r ≡ false = ground (arith, has_byte-cons star_byte d r) in
    ([], [], refl, refl, refl, unfold has_byte in refl, m')

-- The index moves on in the pattern and in the text.
fit-Ahead :
    (x : ℕ) (p : Bytes) (c : ℕ) (s : Bytes) (star : Star)
    → (x == star_byte) ≡ false
    → Ahead (again (x ∷ p) (c ∷ s) star)
    → Ahead (again p s star)
unfolding Ahead
fit-Ahead x p c s none f a = ground (arith, has_byte-cons star_byte c s)
fit-Ahead x p c s (some (q, r)) f (w, v, eq, er, e, n, m) = (
  w ++ x ∷ [],
  v ++ c ∷ [],
  eq ∙ sym (append_assoc w (x ∷ []) p),
  er ∙ sym (append_assoc v (c ∷ []) s),
  omega (arith, length-append w (x ∷ []), length-append v (c ∷ [])),
  ground (
    arith,
    has_byte-append star_byte w (x ∷ []),
    has_byte-cons star_byte x [],
    has_byte-nil star_byte,
  ),
  m,
)

not_star :
    (x c : ℕ) (s : Bytes)
    → fits x c ≡ true
    → has_byte star_byte (c ∷ s) ≡ false
    → (x == star_byte) ≡ false
not_star x c s t n = ground (arith, has_byte-cons star_byte c s)

turn-Ahead : (p s : Bytes) (star : Star) → Ahead (again p s star) → Ahead (turn p s star)
unfolding turn
turn-Ahead p [] star a = unfold Ahead in tt
turn-Ahead [] (c ∷ s) star a = back-Ahead [] (c ∷ s) star a
turn-Ahead (x ∷ p) (c ∷ s) star a =
    let n = Ahead-text (x ∷ p) (c ∷ s) star a in
    elim (Bool-cases (fits x c)) [
      | inl t ↦ rw t (fit-Ahead x p c s star (not_star x c s t n) a)
      | inr e ↦ elim (Bool-cases (x == star_byte)) [
        | inl t ↦ rw (e, t) (unfold Ahead in ([], [], refl, refl, refl, unfold has_byte in refl, n))
        | inr u ↦ rw (e, u) (back-Ahead (x ∷ p) (c ∷ s) star a)
      ]
    ]

-- The star that is met takes the place of the one before it.
star_means :
    (p : Bytes) (c : ℕ) (s : Bytes) (star : Star)
    → Ahead (again (star_byte ∷ p) (c ∷ s) star)
    → (some_end (glob p) (c ∷ s) || later star) ≡ some_end (glob p) (c ∷ s)
unfolding Ahead
star_means p c s none a = ground (arith, later-none)
star_means p c s (some (q, r)) (w, v, eq, er, e, n, m) = elim (Bool-cases (later (some (q, r)))) [
  | inl t ↦ ground (
    arith,
    older_star w v p (c ∷ s) e n (
        sym (ap (λ k. later (some k)) (ap (λ k. (k, r)) eq ∙ ap (λ k. (w ++ star_byte ∷ p, k)) er))
        ∙ t),
  )
  | inr f ↦ ground arith
]

-- At the end of the text no later retry helps.
end_means :
    (p : Bytes) (star : Star) → Ahead (again p [] star) → (glob p [] || later star) ≡ glob p []
unfolding Ahead
end_means p none a = ground (arith, later-none)
end_means p (some (q, r)) (w, v, eq, er, e, n, m) = elim (Bool-cases (later (some (q, r)))) [
  | inl t ↦
      let h : some_end (glob (w ++ p)) r ≡ true =
        sym (ap (λ k. some_end (glob k) r) eq) ∙ later-some_end q r t in
      let l : length r ≤ length w = omega (arith, ap length er, length-append v []) in
      ground (arith, some_end_last w p r n l h)
  | inr f ↦ ground arith
]

glob-nil_cons : (c : ℕ) (s : Bytes) → glob [] (c ∷ s) ≡ false
unfolding glob
glob-nil_cons c s = refl

turn_exact :
    (p s : Bytes) (star : Star)
    → Ahead (again p s star)
    → means (turn p s star) ≡ (glob p s || later star)
unfolding turn means
turn_exact p [] star a = sym (end_means p star a ∙ glob-all_stars p)
turn_exact [] (c ∷ s) star a = ground (arith, glob-nil_cons c s, means-back star)
turn_exact (x ∷ p) (c ∷ s) star a =
    let n = Ahead-text (x ∷ p) (c ∷ s) star a in
    elim (Bool-cases (fits x c)) [
      | inl t ↦ ground (arith, glob-cons x p c s, not_star x c s t n)
      | inr e ↦ elim (Bool-cases (x == star_byte)) [
        | inl t ↦
            let x_eq : x ≡ star_byte = ground arith in
            let met : Ahead (again (star_byte ∷ p) (c ∷ s) star) =
              subst (λ k. Ahead (again (k ∷ p) (c ∷ s) star)) x_eq a in
            ground (
              arith,
              glob-cons x p c s,
              star_means p c s star met,
              later-some p c s,
              some_end-cons p c s,
            )
        | inr u ↦ ground (arith, glob-cons x p c s, means-back star)
      ]
    ]

glob_loop_exact :
    (a n fuel : ℕ) (t : Turn)
    → Ahead t
    → Fits a n t
    → left a n t ≤ fuel
    → glob_loop fuel t ≡ means t
unfolding glob_loop means
glob_loop_exact a n fuel (done b) h f l = refl
glob_loop_exact a n zero (again p s star) h f l = unfold left in absurd (omega arith)
glob_loop_exact a n (suc fuel) (again p s star) h f l =
    glob_loop_exact a n fuel (turn p s star) (turn-Ahead p s star h) (turn-Fits a n p s star f)
      (omega (arith, turn-left a n p s star f))
    ∙ turn_exact p s star h

-- On a text without the byte `*`, `globMatch` answers exactly whether the pattern matches: `?`
-- stands for one byte, `*` for any bytes, and any other byte for itself.
pub glob_match_exact :
    (pat s : Bytes) → has_byte star_byte s ≡ false → glob_match pat s ≡ glob pat s
unfolding glob_match Ahead means
glob_match_exact pat s h =
    glob_loop_exact (length pat) (length s) (turns pat s) (again pat s none) h (start-Fits pat s)
      (start-left pat s)
    ∙ ground (arith, later-none)
