-- ===== src/Schedule/Parse/Rate.antt =====
-- The rates that are accepted.
use mirror_cloud.Common.{
  ℕ, ◌-◌, ◌*◌, ◌/◌, ◌%◌, ◌^◌, ◌≤◌, ◌<◌, ◌≡◌, ◌⊎◌, inl, inr, refl, subst, Bool, true, false, List,
  [], ◌∷◌, Option, none, some, ltb, ltb-ge, if◌then◌else◌, arith,
}
use mirror_cloud.Common.Int.{ℤ, pos, up, ltz}
use mirror_cloud.Bytes.{Bytes, same}
use mirror_cloud.GoMap.{GoMap, lookup}
use mirror_cloud.Schedule.Next.{minute_nanos}
use mirror_cloud.Schedule.Field.{
  Result, ok, failed, ScheduleError, bad_rate_value, rate_too_large, check, atoi,
}
use mirror_cloud.Schedule.Parse.{units, rate_of, rate_words}

-- A duration of whole minutes, not zero, that an int64 of nanoseconds holds.
abbrev pub IsRate : ℕ → Type 0
IsRate every = (minute_nanos ≤ every) × (every < 2 ^ 63) × (every % minute_nanos ≡ 0)

abbrev UnitOf : Option ℕ → Type 0
UnitOf none = Unit
UnitOf (some unit) =
    (unit ≡ minute_nanos) ⊎ ((unit ≡ 60 * minute_nanos) ⊎ (unit ≡ 1440 * minute_nanos))

UnitOf-if : (b : Bool) (o q : Option ℕ) → UnitOf o → UnitOf q → UnitOf (if b then o else q)
UnitOf-if true o q h k = h
UnitOf-if false o q h k = k

abbrev Units : GoMap ℕ → Type 0
Units [] = Unit
Units ((word, unit) ∷ m) = UnitOf (some unit) × Units m

lookup-UnitOf : (word : Bytes) (m : GoMap ℕ) → Units m → UnitOf (lookup word m)
unfolding lookup
lookup-UnitOf word [] h = tt
lookup-UnitOf word ((w, unit) ∷ m) (h, rest) =
    UnitOf-if (same w word) (some unit) (lookup word m) h (lookup-UnitOf word m rest)

units-Units : Units units
units-Units = (
  inl refl,
  (inl refl, (inr (inl refl), (inr (inl refl), (inr (inr refl), (inr (inr refl), tt))))),
)

small_enough :
    (n unit : ℕ) → 1 ≤ n → UnitOf (some unit) → n ≤ (2 ^ 63 - 1) / unit → IsRate (n * unit)
small_enough n unit l (inl h) b =
    let c : n ≤ (2 ^ 63 - 1) / minute_nanos = subst (λ (u : ℕ). n ≤ (2 ^ 63 - 1) / u) (h) b in
    rw h (omega (arith, l, c))
small_enough n unit l (inr (inl h)) b =
    let c : n ≤ (2 ^ 63 - 1) / (60 * minute_nanos) =
      subst (λ (u : ℕ). n ≤ (2 ^ 63 - 1) / u) (h) b in
    rw h (omega (arith, l, c))
small_enough n unit l (inr (inr h)) b =
    let c : n ≤ (2 ^ 63 - 1) / (1440 * minute_nanos) =
      subst (λ (u : ℕ). n ≤ (2 ^ 63 - 1) / u) (h) b in
    rw h (omega (arith, l, c))

unless :
    (b : Bool) (e : ScheduleError) (r : Result ℕ) (v : ℕ)
    → check b e r ≡ ok v
    → (b ≡ false) × (r ≡ ok v)
unless true e r v h = (cc, cc)
unless false e r v h = (refl, h)

up_positive : (n : ℤ) → ltz n (pos 1) ≡ false → 1 ≤ up n
up_positive n h = ground (arith, h)

IsRate-at :
    (n : ℕ) (b : Bool) (e f : ScheduleError) (o : Option ℕ) (every : ℕ)
    → 1 ≤ n
    → UnitOf o
    → elim o [
      | none ↦ failed f
      | some unit ↦ check b e (check (ltb ((2 ^ 63 - 1) / unit) n) rate_too_large (ok (n * unit)))
    ]
      ≡ ok every
    → IsRate every
IsRate-at n b e f none every l u h = cc
IsRate-at n b e f (some unit) every l u h =
    let (_, inner) = unless b e _ every h in
    let (fits, same_value) =
      unless (ltb ((2 ^ 63 - 1) / unit) n) rate_too_large (ok (n * unit)) every inner in
    let v : n * unit ≡ every = cc (same_value) in
    subst IsRate (v) (small_enough n unit l u (ltb-ge ((2 ^ 63 - 1) / unit) n fits))

-- A rate that is accepted is a whole number of minutes, at least one, and is less than 2^63 in
-- nanoseconds, so that the product does not overflow.
pub rate_words-IsRate :
    (words : List Bytes) (every : ℕ) → rate_words words ≡ ok every → IsRate every
unfolding rate_words rate_of
rate_words-IsRate [] every h = cc
rate_words-IsRate (_ ∷ []) every h = cc
rate_words-IsRate (_ ∷ _ ∷ _ ∷ _) every h = cc
rate_words-IsRate (number ∷ word ∷ []) every h = from_number (atoi number) h
  where
    from_number :
        (o : Option ℤ)
        → elim o [
          | none ↦ failed bad_rate_value
          | some n ↦ check (ltz n (pos 1)) bad_rate_value (rate_of (up n) word)
        ]
          ≡ ok every
        → IsRate every
    from_number none k = cc
    from_number (some n) k =
        let (positive, rate) =
          unless (ltz n (pos 1)) bad_rate_value (rate_of (up n) word) every k in
        IsRate-at (up n) _ _ _ (lookup word units) every (up_positive n positive)
          (lookup-UnitOf word units units-Units) rate
