-- ===== src/Iam/Glob/Fuel.antt =====
-- The loop of globMatch (internal/services/aws/iam/authorizer.go) ends: each turn is nearer to its
-- end, first by the retry index and then by the two indices.
use native.Mathlib.Nat.{suc-add, mul-le-mul_right}
use mirror_cloud.Common.{
  ℕ, zero, suc, ◌+◌, ◌*◌, ◌≤◌, ◌<◌, ◌≡◌, refl, sym, ap, ◌∙◌, [], ◌∷◌, none, some, ◌==◌, arith,
  Bool-cases, inl, inr, length,
}
use mirror_cloud.Bytes.{Bytes}
use mirror_cloud.Iam.Glob.{
  Star, Turn, again, done, fits, star_byte, back, turn, glob_loop, glob_match, turns,
}

-- A pattern of a bytes and a text of n.
module _ (a n : ℕ) where
  unfoldable pub star_left : Star → ℕ
  star_left none = suc n
  star_left (some (q, r)) = length r

  -- What is left, in turns.
  unfoldable pub left : Turn → ℕ
  unfolding star_left
  left (again p s star) = suc (star_left star * suc (a + n) + length p + length s)
  left (done b) = 0

  unfoldable pub StarFits : ℕ → Star → Type 0
  StarFits k none = k ≤ n
  StarFits k (some (q, r)) = (length q ≤ a) × (length r ≤ n) × (k ≤ length r)

  -- The pattern and the text are parts of the whole, and the retry index is not past the index.
  unfoldable pub Fits : Turn → Type 0
  unfolding StarFits
  Fits (again p s star) = (length p ≤ a) × StarFits (length s) star
  Fits (done b) = Unit

  back-Fits : (star : Star) (k : ℕ) → StarFits (suc k) star → Fits (back star)
  unfolding StarFits Fits back
  back-Fits none k f = tt
  back-Fits (some (q, [])) k f = tt
  back-Fits (some (q, d ∷ r)) k (f, g, h) = (f, (f, omega arith, omega arith))

  back-left :
      (p : Bytes) (k : ℕ) (star : Star)
      → StarFits (suc k) star
      → left (back star) < suc (star_left star * suc (a + n) + length p + suc k)
  unfolding StarFits back left
  back-left p k none f = omega arith
  back-left p k (some (q, [])) f = omega arith
  back-left p k (some (q, d ∷ r)) (f, g, h) = omega arith

  StarFits-weaken : (star : Star) (k : ℕ) → StarFits (suc k) star → StarFits k star
  unfolding StarFits
  StarFits-weaken none k f = omega arith
  StarFits-weaken (some (q, r)) k (f, g, h) = (f, g, omega arith)

  StarFits-le : (star : Star) (k : ℕ) → StarFits k star → k ≤ n
  unfolding StarFits
  StarFits-le none k f = f
  StarFits-le (some (q, r)) k (f, g, h) = omega arith

  StarFits-left : (star : Star) (k : ℕ) → StarFits k star → k ≤ star_left star
  unfolding StarFits star_left
  StarFits-left none k f = omega arith
  StarFits-left (some (q, r)) k (f, g, h) = h

  pub turn-Fits : (p s : Bytes) (star : Star) → Fits (again p s star) → Fits (turn p s star)
  unfolding turn Fits StarFits
  turn-Fits p [] star f = tt
  turn-Fits [] (c ∷ s) star (f, g) = back-Fits star (length s) g
  turn-Fits (x ∷ p) (c ∷ s) star (f, g) = elim (Bool-cases (fits x c)) [
    | inl t ↦ rw t (omega arith, StarFits-weaken star (length s) g)
    | inr e ↦ elim (Bool-cases (x == star_byte)) [
      | inl t ↦
          rw (e, t) (omega arith, (omega arith, StarFits-le star (suc (length s)) g, omega arith))
      | inr u ↦ rw (e, u) (back-Fits star (length s) g)
    ]
  ]

  pub turn-left :
      (p s : Bytes) (star : Star)
      → Fits (again p s star)
      → left (turn p s star) < left (again p s star)
  unfolding turn Fits left StarFits
  turn-left p [] star f = omega arith
  turn-left [] (c ∷ s) star (f, g) = back-left [] (length s) star g
  turn-left (x ∷ p) (c ∷ s) star (f, g) = elim (Bool-cases (fits x c)) [
    | inl t ↦ rw t (omega arith)
    | inr e ↦ elim (Bool-cases (x == star_byte)) [
      | inl t ↦
          rw (e, t)
            (omega (arith, mul-le-mul_right (suc (a + n)) (StarFits-left star (suc (length s)) g)))
      | inr u ↦ rw (e, u) (back-left (x ∷ p) (length s) star g)
    ]
  ]

  enough_turns :
      (fuel more : ℕ) (t : Turn)
      → Fits t
      → left t ≤ fuel
      → glob_loop (fuel + more) t ≡ glob_loop fuel t
  unfolding glob_loop
  enough_turns fuel more (done b) f h = refl
  enough_turns zero more (again p s star) f h = unfold left in absurd (omega arith)
  enough_turns (suc fuel) more (again p s star) f h = rw (suc-add fuel more) (
      enough_turns fuel more (turn p s star) (turn-Fits p s star f)
        (omega (arith, turn-left p s star f)))

pub start-Fits : (pat s : Bytes) → Fits (length pat) (length s) (again pat s none)
unfolding Fits StarFits
start-Fits pat s = (omega arith, omega arith)

pub start-left : (pat s : Bytes) → left (length pat) (length s) (again pat s none) ≤ turns pat s
unfolding left
start-left pat s = omega arith

-- The loop of `globMatch` ends within the turns of the model: more turns change no answer, for any
-- pattern and text.
pub glob_match_ends :
    (pat s : Bytes) (more : ℕ)
    → glob_loop (turns pat s + more) (again pat s none) ≡ glob_match pat s
unfolding glob_match
glob_match_ends pat s more =
    enough_turns (length pat) (length s) (turns pat s) more (again pat s none) (start-Fits pat s)
      (start-left pat s)

add_suc_swap : (l k : ℕ) → l + suc k ≡ suc (k + l)
add_suc_swap l k = omega arith

glob_loop-suc :
    (fuel : ℕ) (p s : Bytes)
    → glob_loop (suc fuel) (again (star_byte ∷ p) (star_byte ∷ s) none)
      ≡ glob_loop fuel (again p s none)
unfolding glob_loop turn
glob_loop-suc fuel p s = refl

-- Where pattern and text both begin with `*`, `globMatch` takes the one for the other: it answers
-- what it answers for the rest of both, so that star of the pattern stands for no other bytes.
pub glob_match_star : (p s : Bytes) → glob_match (star_byte ∷ p) (star_byte ∷ s) ≡ glob_match p s
glob_match_star p s =
    let k = turns p s in
    let l = turns (star_byte ∷ p) (star_byte ∷ s) in
    sym (glob_match_ends (star_byte ∷ p) (star_byte ∷ s) (suc k))
    ∙ ap (λ n. glob_loop n (again (star_byte ∷ p) (star_byte ∷ s) none)) (add_suc_swap l k)
    ∙ glob_loop-suc (k + l) p s
    ∙ glob_match_ends p s l
