-- ===== src/Iam/Glob/Sound.antt =====
-- What globMatch of internal/services/aws/iam/authorizer.go accepts, the pattern matches.
use mirror_cloud.Common.{
  ℕ, zero, suc, ◌≡◌, refl, Bool, true, false, ◌&&◌, ◌||◌, [], ◌∷◌, none, some, ◌==◌, if◌then◌else◌,
  arith,
}
use mirror_cloud.Bytes.{Bytes}
use mirror_cloud.Iam.Glob.{
  Star, Turn, fits, star_byte, all_stars, back, turn, glob_loop, glob_match, turns, glob, some_end,
}

-- The pattern after the last star matches at a later index than the retry index.
unfoldable pub later : Star → Bool
unfolding some_end
later none = false
later (some (q, [])) = false
later (some (q, _ ∷ r)) = some_end (glob q) r

pub glob-all_stars : (p : Bytes) → glob p [] ≡ all_stars p
unfolding glob some_end all_stars
glob-all_stars [] = refl
glob-all_stars (x ∷ p) = ground (arith, glob-all_stars p)

-- What a turn goes on with means no more than what it started from.
unfoldable pub means : Turn → Bool
means (Turn.again p s star) = glob p s || later star
means (Turn.done b) = b

fits_star : (x c : ℕ) → fits x c ≡ true → x ≡ star_byte → x ≡ c
fits_star x c h e = ground arith

pub some_end-cons :
    (q : Bytes) (c : ℕ) (s : Bytes)
    → some_end (glob q) (c ∷ s) ≡ (glob q (c ∷ s) || some_end (glob q) s)
unfolding some_end
some_end-cons q c s = refl

some_end_whole : (q s : Bytes) → glob q s ≡ true → some_end (glob q) s ≡ true
unfolding some_end
some_end_whole q [] h = h
some_end_whole q (c ∷ s) h = ground arith

pub means-back : (star : Star) → means (back star) ≡ later star
unfolding back means some_end later
means-back none = refl
means-back (some (q, [])) = refl
means-back (some (q, d ∷ [])) = ground arith
means-back (some (q, d ∷ e ∷ r)) = refl

pub glob-cons :
    (x : ℕ) (p : Bytes) (c : ℕ) (s : Bytes)
    → glob (x ∷ p) (c ∷ s)
      ≡ (if x == star_byte then some_end (glob p) (c ∷ s) else fits x c && glob p s)
unfolding glob
glob-cons x p c s = refl

pub later-some : (p : Bytes) (c : ℕ) (s : Bytes) → later (some (p, c ∷ s)) ≡ some_end (glob p) s
unfolding later
later-some p c s = refl

turn_sound :
    (p s : Bytes) (star : Star) → means (turn p s star) ≡ true → (glob p s || later star) ≡ true
unfolding turn means
turn_sound p [] star h = ground (arith, glob-all_stars p)
turn_sound [] (c ∷ s) star h = ground (arith, means-back star)
turn_sound (x ∷ p) (c ∷ s) star h = ground (
  arith,
  glob-cons x p c s,
  later-some p c s,
  means-back star,
  some_end-cons p c s,
  some_end_whole p s,
  fits_star x c,
)

glob_loop_sound : (fuel : ℕ) (t : Turn) → glob_loop fuel t ≡ true → means t ≡ true
unfolding glob_loop means
glob_loop_sound fuel (Turn.done b) h = h
glob_loop_sound zero (Turn.again p s star) h = ground arith
glob_loop_sound (suc fuel) (Turn.again p s star) h =
    turn_sound p s star (glob_loop_sound fuel (turn p s star) h)

pub later-none : later none ≡ false
unfolding later
later-none = refl

-- Where `globMatch` answers true the pattern matches, for any text.
pub glob_match_sound : (pat s : Bytes) → glob_match pat s ≡ true → glob pat s ≡ true
unfolding glob_match means
glob_match_sound pat s h =
    ground (arith, later-none, glob_loop_sound (turns pat s) (Turn.again pat s none) h)
