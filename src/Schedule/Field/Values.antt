-- ===== src/Schedule/Field/Values.antt =====
-- The values of a range of a cron field: parseIntField of
-- internal/services/aws/scheduleexpr/expression.go.
use native.Mathlib.Nat.{mod-eq_of_lt, add-mod_right}
use mirror_cloud.Common.{
  ℕ, zero, suc, ◌+◌, ◌-◌, ◌%◌, ◌^◌, ◌≤◌, ◌<◌, ◌≡◌, refl, sym, ◌∙◌, ap, Bool, true, false, ◌&&◌,
  ◌||◌, ◌==◌, [], ◌∷◌, ◌++◌, leb, ltb, Bool-cases, inl, inr, if◌then◌else◌, arith,
}
use mirror_cloud.Common.Int.{ℤ, pos, negsuc, up, ltz}
use mirror_cloud.Schedule.Cron.{IntField, is_number, has}
use mirror_cloud.Schedule.Field.Ends.{steps-suc, add_step-fits}
use mirror_cloud.Schedule.Field.{
  ok, failed, out_of_range, bad_range, add_step, steps, step_values, range_values,
}

-- A value of the loop: not below its start, not above its end, and a whole number of steps on.
abbrev pub on_step : ℕ → ℕ → ℕ → ℕ → Bool
on_step step lo hi n = leb lo n && (leb n hi && (n - lo) % step == 0)

small_mod : (n m : ℕ) → n < m → n % m ≡ n
small_mod n m h = mod-eq_of_lt h

-- One step further on.
step_mod : (n lo step : ℕ) → lo + step ≤ n → (n - lo) % step ≡ (n - (lo + step)) % step
step_mod n lo step h =
    let e : n - lo ≡ n - (lo + step) + step = omega (arith, h) in
    ap (λ (k : ℕ). k % step) e ∙ add-mod_right (n - (lo + step)) step

-- Whether a value is on a step from lo is whether it is lo or on a step from the next one.
on_step-next :
    (step lo hi n : ℕ)
    → 1 ≤ step
    → lo ≤ hi
    → on_step step lo hi n ≡ lo == n || on_step step (lo + step) hi n
on_step-next step lo hi n s h = elim (Bool-cases (ltb n (lo + step))) [
  | inr k ↦ ground (arith, s, h, k, step_mod n lo step)
  | inl k ↦ ground (arith, s, h, k, small_mod (n - lo) step)
]

has-steps-suc :
    (fuel step n : ℕ) (hi m : ℤ)
    → has n (steps (suc fuel) step hi m)
      ≡ (if ltz hi m then false else is_number n m || has n (steps fuel step hi (add_step step m)))
unfolding has
has-steps-suc fuel step n hi m = ground (arith, steps-suc fuel step hi m)

has-steps :
    (fuel step hi lo n : ℕ)
    → 1 ≤ step
    → hi + step < 2 ^ 63
    → hi < fuel + lo
    → has n (steps fuel step (pos hi) (pos lo)) ≡ on_step step lo hi n
has-steps zero step hi lo n s h f = unfold has steps in ground (arith, f)
has-steps (suc fuel) step hi lo n s h f = elim (Bool-cases (ltb hi lo)) [
  | inl p ↦ ground (arith, has-steps-suc fuel step n (pos hi) (pos lo), p)
  | inr p ↦
      let low : lo ≤ hi = ground (arith, p) in
      let next : add_step step (pos lo) ≡ pos (lo + step) =
        add_step-fits step lo (omega (arith, h, low)) in
      ground (
        arith,
        p,
        has-steps-suc fuel step n (pos hi) (pos lo),
        ap (λ (m : ℤ). has n (steps fuel step (pos hi) m)) next,
        has-steps fuel step hi (lo + step) n s h (omega (arith, f, s)),
        on_step-next step lo hi n s low,
      )
]

-- The loop of a field, to an end that may be negative.
abbrev pub on_steps : ℕ → ℕ → ℤ → ℕ → Bool
on_steps step lo (pos hi) n = on_step step lo hi n
on_steps step lo (negsuc _) n = false

has-step_values :
    (step lo n : ℕ) (hi : ℤ)
    → 1 ≤ step
    → up hi + step < 2 ^ 63
    → has n (step_values step lo hi) ≡ on_steps step lo hi n
unfolding step_values
has-step_values step lo n (pos hi) s h = has-steps (hi + 3) step hi lo n s h (omega arith)
has-step_values step lo n (negsuc k) s h =
    ground (arith, has-steps-suc 2 step n (negsuc k) (pos lo))

has-append : (n : ℕ) (f g : IntField) → has n (f ++ g) ≡ has n f || has n g
unfolding has
has-append n [] g = refl
has-append n (m ∷ f) g = ground (arith, has-append n f g)

-- The values of a range: the steps from its first value to its last; where the last is before the
-- first, the steps from the first to the end of the field and those from the start of the field to
-- the last.
abbrev pub stepped : ℕ → ℕ → ℕ → ℤ → ℤ → ℕ → Bool
stepped low high step lo hi n =
    if ltz hi lo
    then on_step step (up lo) high n || on_steps step low hi n
    else on_steps step (up lo) hi n

chosen :
    (bad wrapped : Bool) (f g h : IntField)
    → (if bad then failed out_of_range else if wrapped then ok f else ok g) ≡ ok h
    → (bad ≡ false) × ((if wrapped then f else g) ≡ h)
chosen true wrapped f g h e = absurd cc
chosen false true f g h e = (refl, cc)
chosen false false f g h e = (refl, cc)

range_by :
    (low high step : ℕ) (lo hi : ℤ) (f : IntField)
    → range_values low high step (lo, hi) ≡ ok f
    → (bad_range low high lo hi ≡ false)
      × ((if ltz hi lo
            then step_values step (up lo) (pos high) ++ step_values step low hi
            else step_values step (up lo) hi)
          ≡ f)
unfolding range_values
range_by low high step lo hi f h =
    chosen (bad_range low high lo hi) (ltz hi lo)
      (step_values step (up lo) (pos high) ++ step_values step low hi) (step_values step (up lo) hi)
      f h

has-by :
    (low high step n : ℕ) (lo hi : ℤ)
    → 1 ≤ step
    → high + step < 2 ^ 63
    → up hi ≤ high
    → (w : Bool)
    → has n (
        if w
        then step_values step (up lo) (pos high) ++ step_values step low hi
        else step_values step (up lo) hi)
      ≡ (if w
          then on_step step (up lo) high n || on_steps step low hi n
          else on_steps step (up lo) hi n)
has-by low high step n lo hi s h u true = ground (
  arith,
  has-append n (step_values step (up lo) (pos high)) (step_values step low hi),
  has-step_values step (up lo) n (pos high) s h,
  has-step_values step low n hi s (omega (arith, h, u)),
)
has-by low high step n lo hi s h u false = has-step_values step (up lo) n hi s (omega (arith, h, u))

in_range :
    (low high : ℕ) (lo hi : ℤ) → bad_range low high lo hi ≡ false → (low ≤ up lo) × (up hi ≤ high)
in_range low high lo hi b = ground (arith, b)

-- A range that parseIntField accepts, with a step that is at least one and does not overflow an
-- int64 when it is added to the last number of the field, does not start before the field nor end
-- behind it. The field then has exactly the numbers from the start to the end that are whole steps
-- on from the start; where the end is before the start, those from the start to the end of the
-- field and, in steps from its first number, those up to the end of the range.
pub range_values_exact :
    (low high step : ℕ) (lo hi : ℤ) (f : IntField)
    → 1 ≤ step
    → high + step < 2 ^ 63
    → range_values low high step (lo, hi) ≡ ok f
    → (low ≤ up lo) × (up hi ≤ high) × ((n : ℕ) → has n f ≡ stepped low high step lo hi n)
range_values_exact low high step lo hi f s h r =
    let (b, e) = range_by low high step lo hi f r in
    let (l, u) = in_range low high lo hi b in
    (l, u, λ n. ap (has n) (sym e) ∙ has-by low high step n lo hi s h u (ltz hi lo))
