-- ===== src/Iam/Glob.antt =====
-- globMatch of internal/services/aws/iam/authorizer.go. An index into the pattern or the text is
-- what is left of it from there on; `star` is none until a `*` is met, then the pattern after the
-- last one met and the text at the retry index.
pub mod Fuel
pub mod Sound
pub mod Ends
pub mod Exact
use mirror_cloud.Common.{
  ℕ, zero, suc, ◌+◌, ◌*◌, Bool, true, false, not, ◌&&◌, ◌||◌, List, [], ◌∷◌, Option, none, some,
  ◌==◌, length, if◌then◌else◌,
}
use mirror_cloud.Bytes.{Bytes, is_empty}

abbrev pub star_byte : ℕ
star_byte = 42

abbrev pub any_byte : ℕ
any_byte = 63

-- pat[p] == '?' || pat[p] == s[i]
abbrev pub fits : ℕ → ℕ → Bool
fits x c = x == any_byte || x == c

-- The loop that skips the stars at the end of the pattern, and the test after it.
unfoldable pub all_stars : Bytes → Bool
all_stars [] = true
all_stars (x ∷ p) = x == star_byte && all_stars p

abbrev pub Star : Type 0
Star = Option (Bytes × Bytes)

-- What a turn of the loop goes on with.
pub data Turn : Type 0 where
  again : Bytes → Bytes → Star → Turn
  done : Bool → Turn

-- The two branches that go back to the last star or give up. The retry index is never past the
-- current one, which is not at the end.
unfoldable pub back : Star → Turn
back none = done false
back (some (q, [])) = done false
back (some (q, _ ∷ r)) = again q r (some (q, r))

-- One turn of the loop.
unfoldable pub turn : Bytes → Bytes → Star → Turn
unfolding back all_stars
turn p [] star = done (all_stars p)
turn [] (c ∷ s) star = back star
turn (x ∷ p) (c ∷ s) star =
    if fits x c
    then again p s star
    else if x == star_byte
    then again p (c ∷ s) (some (p, c ∷ s))
    else back star

-- The loop, for a number of turns.
unfoldable pub glob_loop : ℕ → Turn → Bool
unfolding turn
glob_loop fuel (done b) = b
glob_loop zero (again p s star) = false
glob_loop (suc fuel) (again p s star) = glob_loop fuel (turn p s star)

-- The turns that suffice.
abbrev pub turns : Bytes → Bytes → ℕ
turns pat s = suc (suc (length s)) * suc (length pat + length s)

-- globMatch
unfoldable pub glob_match : Bytes → Bytes → Bool
unfolding glob_loop
glob_match pat s = glob_loop (turns pat s) (again pat s none)

-- Some end of the text, the whole text among them, passes a test.
unfoldable pub some_end : (Bytes → Bool) → Bytes → Bool
some_end test [] = test []
some_end test (c ∷ s) = test (c ∷ s) || some_end test s

abbrev pub after_one : ℕ → (Bytes → Bool) → Bytes → Bool
after_one x test [] = false
after_one x test (c ∷ s) = fits x c && test s

-- What a pattern means: `?` is any one byte, `*` any bytes, any other byte itself.
unfoldable pub glob : Bytes → Bytes → Bool
unfolding some_end
glob [] s = is_empty s
glob (x ∷ p) s = let rest = glob p in if x == star_byte then some_end rest s else after_one x rest s
