-- ===== src/Schedule/Calendar/Before.antt =====
-- The minute before an instant.
use mirror_cloud.Common.{
  ℕ, ◌-◌, ◌≤◌, ◌<◌, ◌≡◌, refl, sym, Bool, true, false, ltb, ltb-lt, ltb-ge, Bool-cases, inl, inr,
  if◌then◌else◌, arith,
}
use mirror_cloud.Schedule.Calendar.{Time, last_day, rank, IsDate, last_minute_before, minute_before}
use mirror_cloud.Schedule.Calendar.Order.{
  last_day_low, last_day_high, Date_bounds, with_nanos-IsDate,
}

december : (y : ℕ) → 31 ≤ last_day y 12
unfolding last_day
december y = omega arith

-- The minute before t is a date, comes before t, and no date is between.
pub record Precedes (u t : Time) : Type 0 where
  pub begins : IsDate u
  pub earlier : rank u < rank t
  pub none_between : (v : Time) → IsDate v → rank u < rank v → rank t ≤ rank v

Precedes-if :
    (b : Bool) (u w t : Time)
    → (b ≡ true → Precedes u t)
    → (b ≡ false → Precedes w t)
    → Precedes (if b then u else w) t
Precedes-if true u w t h k = h refl
Precedes-if false u w t h k = k refl

last_minute_before-Precedes :
    (t : Time)
    → IsDate t
    → 1 ≤ t.year
    → t.hour ≡ 0
    → t.minute ≡ 0
    → Precedes (last_minute_before t.year t.month t.day) t
unfolding last_minute_before
last_minute_before-Precedes t d y hour minute =
    Precedes-if (ltb 1 t.day) _ _ t
      (λ h. record {
        begins = record {
          month_low = d.month_low;
          month_high = d.month_high;
          day_low = ground arith;
          day_high = omega (arith, d.day_high);
          hour_high = omega arith;
          minute_high = omega arith;
        };
        earlier = omega (arith, ltb-lt 1 t.day h, hour, minute);
        none_between = λ v e p. omega (arith, p, hour, minute, Date_bounds v e, ltb-lt 1 t.day h);
      })
      (λ h.
        Precedes-if (ltb 1 t.month) _ _ t
          (λ k. record {
            begins = record {
              month_low = ground arith;
              month_high = omega (arith, d.month_high);
              day_low = omega (arith, last_day_low t.year (t.month - 1));
              day_high = omega arith;
              hour_high = omega arith;
              minute_high = omega arith;
            };
            earlier = omega (
              arith,
              hour,
              minute,
              Date_bounds t d,
              ltb-lt 1 t.month k,
              last_day_high t.year (t.month - 1),
            );
            none_between = λ v e p. elim (Bool-cases (ltb (rank v) (rank t))) [
              | inr r ↦ ltb-ge (rank v) (rank t) r
              | inl r ↦
                  let first : t.day ≡ 1 = omega (arith, d.day_low, ltb-ge 1 t.day h) in
                  let low : 28 ≤ last_day t.year (t.month - 1) =
                    last_day_low t.year (t.month - 1) in
                  let same_year : v.year ≡ t.year = omega (
                    arith,
                    p,
                    ltb-lt (rank v) (rank t) r,
                    hour,
                    minute,
                    first,
                    low,
                    Date_bounds v e,
                    Date_bounds t d,
                    ltb-lt 1 t.month k,
                  ) in
                  let same_month : v.month ≡ t.month - 1 = omega (
                    arith,
                    p,
                    ltb-lt (rank v) (rank t) r,
                    hour,
                    minute,
                    first,
                    low,
                    same_year,
                    Date_bounds v e,
                    ltb-lt 1 t.month k,
                  ) in
                  let high : v.day ≤ last_day t.year (t.month - 1) =
                    rw (sym same_year, sym same_month) e.day_high in
                  absurd (omega (arith, p, same_year, same_month, high, Date_bounds v e))
            ];
          })
          (λ k. record {
            begins = record {
              month_low = omega arith;
              month_high = omega arith;
              day_low = omega arith;
              day_high = december (t.year - 1);
              hour_high = omega arith;
              minute_high = omega arith;
            };
            earlier = omega (arith, y, hour, minute, Date_bounds t d);
            none_between = λ v e p. omega (
              arith,
              p,
              y,
              hour,
              minute,
              Date_bounds v e,
              ltb-ge 1 t.day h,
              ltb-ge 1 t.month k,
              Date_bounds t d,
            );
          }))

pub minute_before-Precedes : (t : Time) → IsDate t → 1 ≤ t.year → Precedes (minute_before t) t
unfolding minute_before
minute_before-Precedes t d y =
    Precedes-if (ltb 0 t.minute) _ _ t
      (λ h. record {
        begins = record {
          month_low = d.month_low;
          month_high = d.month_high;
          day_low = d.day_low;
          day_high = d.day_high;
          hour_high = d.hour_high;
          minute_high = omega (arith, d.minute_high);
        };
        earlier = ground arith;
        none_between = λ v e p. omega (arith, p, ltb-lt 0 t.minute h);
      })
      (λ h.
        Precedes-if (ltb 0 t.hour) _ _ t
          (λ k. record {
            begins = record {
              month_low = d.month_low;
              month_high = d.month_high;
              day_low = d.day_low;
              day_high = d.day_high;
              hour_high = omega (arith, d.hour_high);
              minute_high = omega arith;
            };
            earlier = ground arith;
            none_between =
                λ v e p. omega (arith, p, Date_bounds v e, ltb-lt 0 t.hour k, ltb-ge 0 t.minute h);
          })
          (λ k.
            let p =
              last_minute_before-Precedes t d y (omega (arith, ltb-ge 0 t.hour k))
                (omega (arith, ltb-ge 0 t.minute h)) in
            record {
              begins = with_nanos-IsDate t.nanos (last_minute_before t.year t.month t.day) p.begins;
              earlier = p.earlier;
              none_between = p.none_between;
            }))
