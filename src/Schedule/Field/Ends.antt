-- ===== src/Schedule/Field/Ends.antt =====
-- How long the loop of parseIntField (internal/services/aws/scheduleexpr/expression.go) runs.
use mirror_cloud.Common.{
  ℕ, zero, suc, ◌+◌, ◌-◌, ◌^◌, ◌≤◌, ◌<◌, ◌≡◌, refl, sym, subst, ap, ◌∙◌, true, [], ◌∷◌, ltb, leb,
  Bool-cases, inl, inr, if◌then◌else◌, arith,
}
use mirror_cloud.Common.Int.{ℤ, pos, negsuc, up, ltz, ◌+ℤ◌}
use mirror_cloud.Schedule.Field.{add_step, steps, step_values}

pub steps-suc :
    (fuel step : ℕ) (hi n : ℤ)
    → steps (suc fuel) step hi n
      ≡ (if ltz hi n then [] else n ∷ steps fuel step hi (add_step step n))
unfolding steps
steps-suc fuel step hi n = refl

-- One turn more makes no difference.
abbrev Ended : ℕ → ℕ → ℤ → ℤ → Type 0
Ended fuel step hi n = steps (suc fuel) step hi n ≡ steps fuel step hi n

past : (fuel step : ℕ) (hi n : ℤ) → ltz hi n ≡ true → steps fuel step hi n ≡ []
past zero step hi n h = unfold steps in refl
past (suc fuel) step hi n h = ground (arith, steps-suc fuel step hi n, h)

past-Ended : (fuel step : ℕ) (hi n : ℤ) → ltz hi n ≡ true → Ended fuel step hi n
past-Ended fuel step hi n h = ground (past (suc fuel) step hi n h, past fuel step hi n h, arith)

step-Ended :
    (fuel step : ℕ) (hi n : ℤ) → Ended fuel step hi (add_step step n) → Ended (suc fuel) step hi n
step-Ended fuel step hi n h =
    ground (arith, h, steps-suc (suc fuel) step hi n, steps-suc fuel step hi n)

pub add_step-fits : (step m : ℕ) → m + step < 2 ^ 63 → add_step step (pos m) ≡ pos (m + step)
unfolding add_step ◌+ℤ◌
add_step-fits step m h = ground (arith, h)

add_step-wraps :
    (step m : ℕ)
    → 2 ^ 63 ≤ m + step
    → m + step < 2 ^ 64
    → add_step step (pos m) ≡ negsuc (2 ^ 64 - (m + step) - 1)
unfolding add_step ◌+ℤ◌
add_step-wraps step m h k = ground (arith, h, k)

add_step-up :
    (step k : ℕ) → k < step → step < 2 ^ 63 → add_step step (negsuc k) ≡ pos (step - (k + 1))
unfolding add_step ◌+ℤ◌
add_step-up step k h l = ground (arith, h, l)

add_step-below : (step k : ℕ) → step ≤ k → add_step step (negsuc k) ≡ negsuc (k - step)
unfolding add_step ◌+ℤ◌
add_step-below step k h = ground (arith, h)

-- A step that cannot overflow from a value of the range goes up each turn.
small_step :
    (fuel step hi m : ℕ)
    → 1 ≤ step
    → hi + step < 2 ^ 63
    → hi < fuel + m
    → Ended fuel step (pos hi) (pos m)
small_step zero step hi m s h f = past-Ended zero step (pos hi) (pos m) (ground (arith, f))
small_step (suc fuel) step hi m s h f = elim (Bool-cases (ltb hi m)) [
  | inl p ↦ past-Ended (suc fuel) step (pos hi) (pos m) (ground (arith, p))
  | inr p ↦
      let low : m ≤ hi = ground (arith, p) in
      step-Ended fuel step (pos hi) (pos m) (
        subst (Ended fuel step (pos hi)) (sym (add_step-fits step m (omega (arith, low, h))))
          (small_step fuel step hi (m + step) s h (omega (arith, f, s))))
]

module _ (step hi : ℕ) (s : step < 2 ^ 63) (b : 2 ^ 63 ≤ hi + step) (h : hi < 2 ^ 60) where
  -- From a negative value that the next step does not bring back to zero, two turns lead past the
  -- end; from one that it brings to m, a turn leads to m.
  far_below :
      (fuel k : ℕ) → step ≤ k → k ≤ step + 2 ^ 62 → Ended (suc (suc fuel)) step (pos hi) (negsuc k)
  far_below fuel k l u = step-Ended (suc fuel) step (pos hi) (negsuc k) (
      subst (Ended (suc fuel) step (pos hi)) (sym (add_step-below step k l)) (
        step-Ended fuel step (pos hi) (negsuc (k - step)) (
          subst (Ended fuel step (pos hi))
            (sym (add_step-up step (k - step) (omega (arith, l, u, b, h, s)) s))
            (past-Ended fuel step (pos hi) (pos (step - (k - step + 1)))
              (ground (arith, l, u, b, h, s))))))

  -- A step that overflows somewhere in the range: every two turns go down, or the loop is at its
  -- end.
  big_step : (turns fuel m : ℕ) → m < turns → m + 3 ≤ fuel → Ended fuel step (pos hi) (pos m)
  big_step zero fuel m t f = absurd (omega arith)
  big_step (suc turns) (suc (suc (suc fuel))) m t f = elim (Bool-cases (ltb hi m)) [
    | inl p ↦ past-Ended (suc (suc (suc fuel))) step (pos hi) (pos m) (ground (arith, p))
    | inr p ↦
        let low : m ≤ hi = ground (arith, p) in
        step-Ended (suc (suc fuel)) step (pos hi) (pos m)
          (elim (Bool-cases (ltb (m + step) (2 ^ 63))) [
            | inl q ↦
                subst (Ended (suc (suc fuel)) step (pos hi))
                  (sym (add_step-fits step m (ground (arith, q))))
                  (past-Ended (suc (suc fuel)) step (pos hi) (pos (m + step))
                    (ground (arith, b, h)))
            | inr q ↦
                let over : 2 ^ 63 ≤ m + step = ground (arith, q) in
                let k : ℕ = 2 ^ 64 - (m + step) - 1 in
                subst (Ended (suc (suc fuel)) step (pos hi))
                  (sym (add_step-wraps step m over (omega (arith, low, h, s))))
                  (elim (Bool-cases (leb step k)) [
                    | inl l ↦
                        far_below fuel k (ground (arith, l)) (omega (arith, over, s, b, low, h))
                    | inr l ↦
                        let short : k < step = ground (arith, l) in
                        step-Ended (suc fuel) step (pos hi) (negsuc k) (
                          subst (Ended (suc fuel) step (pos hi)) (sym (add_step-up step k short s))
                            (big_step turns (suc fuel) (step - (k + 1))
                              (omega (arith, over, short, s, t))
                              (omega (arith, over, short, s, f))))
                  ])
          ])
  ]
  big_step (suc turns) zero m t f = absurd (omega arith)
  big_step (suc turns) (suc zero) m t f = absurd (omega arith)
  big_step (suc turns) (suc (suc zero)) m t f = absurd (omega arith)

both_steps :
    (fuel step lo hi : ℕ)
    → 1 ≤ step
    → step < 2 ^ 63
    → hi < 2 ^ 60
    → hi + 3 ≤ fuel
    → Ended fuel step (pos hi) (pos lo)
both_steps fuel step lo hi s t h f = elim (Bool-cases (ltb hi lo)) [
  | inl p ↦ past-Ended fuel step (pos hi) (pos lo) (ground (arith, p))
  | inr p ↦
      let low : lo ≤ hi = ground (arith, p) in
      elim (Bool-cases (ltb (hi + step) (2 ^ 63))) [
        | inl q ↦ small_step fuel step hi lo s (ground (arith, q)) (omega (arith, f))
        | inr q ↦
            big_step step hi t (ground (arith, q)) h (suc lo) fuel lo (omega arith)
              (omega (arith, low, f))
      ]
]

ends_by :
    (fuel step lo : ℕ) (hi : ℤ)
    → 1 ≤ step
    → step < 2 ^ 63
    → up hi < 2 ^ 60
    → up hi + 3 ≤ fuel
    → Ended fuel step hi (pos lo)
ends_by fuel step lo (pos hi) s t h f = both_steps fuel step lo hi s t h f
ends_by fuel step lo (negsuc hi) s t h f = past-Ended fuel step (negsuc hi) (pos lo) (ground arith)

add-suc : (n m : ℕ) → n + suc m ≡ suc (n + m)
add-suc n m = omega arith

-- The loop over the values of a range, whose step is at least one and may overflow an int64, ends
-- within the turns of the model, three more than the last value, for a last value below 2^60: more
-- turns give no other values.
pub step_values_end :
    (step lo more : ℕ) (hi : ℤ)
    → 1 ≤ step
    → step < 2 ^ 63
    → up hi < 2 ^ 60
    → steps (up hi + 3 + more) step hi (pos lo) ≡ step_values step lo hi
unfolding step_values
step_values_end step lo zero hi s t h = ap (λ (k : ℕ). steps k step hi (pos lo)) (omega arith)
step_values_end step lo (suc more) hi s t h =
    ap (λ (k : ℕ). steps k step hi (pos lo)) (add-suc (up hi + 3) more)
    ∙ ends_by (up hi + 3 + more) step lo hi s t h (omega arith)
    ∙ step_values_end step lo more hi s t h
