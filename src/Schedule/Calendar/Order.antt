-- ===== src/Schedule/Calendar/Order.antt =====
-- The steps of the calendar go forward, and each goes to the first minute of what comes next.
use mirror_cloud.Common.{
  ℕ, suc, ◌≤◌, ◌<◌, ◌≡◌, refl, sym, Bool, true, false, ltb, if◌then◌else◌, arith,
}
use mirror_cloud.Schedule.Calendar.{
  Time, minute_at, last_day, next_year, next_month, next_day, next_hour, next_minute, with_nanos,
  rank, IsDate,
}

pub last_day_low : (y m : ℕ) → 28 ≤ last_day y m
unfolding last_day
last_day_low y m = ground arith

pub last_day_high : (y m : ℕ) → last_day y m ≤ 31
unfolding last_day
last_day_high y m = ground arith

-- What is known of a step from t to u: u is a date, comes later, and the dates between have the
-- given parts of t.
pub record Steps (Same : Time → Time → Type 0) (t u : Time) : Type 0 where
  pub lands : IsDate u
  pub later : rank t < rank u
  pub between : (v : Time) → IsDate v → rank t ≤ rank v → rank v < rank u → Same t v

abbrev pub SameYear : Time → Time → Type 0
SameYear t v = v.year ≡ t.year

abbrev pub SameMonth : Time → Time → Type 0
SameMonth t v = (v.year ≡ t.year) × (v.month ≡ t.month)

abbrev pub SameDay : Time → Time → Type 0
SameDay t v = (v.year ≡ t.year) × (v.month ≡ t.month) × (v.day ≡ t.day)

abbrev pub SameHour : Time → Time → Type 0
SameHour t v = (v.year ≡ t.year) × (v.month ≡ t.month) × (v.day ≡ t.day) × (v.hour ≡ t.hour)

abbrev pub SameMinute : Time → Time → Type 0
SameMinute t v =
    (v.year ≡ t.year)
    × (v.month ≡ t.month)
    × (v.day ≡ t.day)
    × (v.hour ≡ t.hour)
    × (v.minute ≡ t.minute)

pub Date_bounds :
    (t : Time)
    → IsDate t
    → (1 ≤ t.month) × (t.month ≤ 12) × (1 ≤ t.day) × (t.day ≤ 31) × (t.hour ≤ 23) × (t.minute ≤ 59)
Date_bounds t d = (
  d.month_low,
  d.month_high,
  d.day_low,
  omega (arith, d.day_high, last_day_high t.year t.month),
  d.hour_high,
  d.minute_high,
)

pub with_nanos-IsDate : (n : ℕ) (t : Time) → IsDate t → IsDate (with_nanos n t)
with_nanos-IsDate n t d = record {
  month_low = d.month_low;
  month_high = d.month_high;
  day_low = d.day_low;
  day_high = d.day_high;
  hour_high = d.hour_high;
  minute_high = d.minute_high;
}

pub next_year-Steps : (t : Time) → IsDate t → Steps SameYear t (next_year t)
next_year-Steps t d = record {
  lands = record {
    month_low = omega arith;
    month_high = omega arith;
    day_low = omega arith;
    day_high = omega (arith, last_day_low (suc t.year) 1);
    hour_high = omega arith;
    minute_high = omega arith;
  };
  later = omega (arith, Date_bounds t d);
  between = λ v e h k. omega (arith, Date_bounds t d, Date_bounds v e, h, k);
}

-- A step that goes to the next of a smaller part, or else further.
Steps-if :
    (Same : Time → Time → Type 0) (b : Bool) (t u w : Time)
    → (b ≡ true → Steps Same t u)
    → (b ≡ false → Steps Same t w)
    → Steps Same t (if b then u else w)
Steps-if Same true t u w h k = h refl
Steps-if Same false t u w h k = k refl

pub next_month-Steps : (t : Time) → IsDate t → Steps SameMonth t (next_month t)
next_month-Steps t d =
    Steps-if SameMonth (ltb t.month 12) t (minute_at t.year (suc t.month) 1 0 0) (next_year t)
      (λ h. record {
        lands = record {
          month_low = omega arith;
          month_high = ground arith;
          day_low = omega arith;
          day_high = omega (arith, last_day_low t.year (suc t.month));
          hour_high = omega arith;
          minute_high = omega arith;
        };
        later = omega (arith, Date_bounds t d);
        between = λ v e p q. omega (arith, Date_bounds t d, Date_bounds v e, p, q);
      })
      (λ h.
        let month : t.month ≡ 12 = ground (arith, Date_bounds t d) in
        record {
          lands = (next_year-Steps t d).lands;
          later = (next_year-Steps t d).later;
          between = λ v e p q. omega (arith, month, Date_bounds t d, Date_bounds v e, p, q);
        })

pub next_day-Steps : (t : Time) → IsDate t → Steps SameDay t (next_day t)
unfolding next_day
next_day-Steps t d =
    Steps-if SameDay (ltb t.day (last_day t.year t.month)) t
      (minute_at t.year t.month (suc t.day) 0 0) (next_month t)
      (λ h. record {
        lands = record {
          month_low = d.month_low;
          month_high = d.month_high;
          day_low = omega arith;
          day_high = ground arith;
          hour_high = omega arith;
          minute_high = omega arith;
        };
        later = omega (arith, Date_bounds t d);
        between = λ v e p q. omega (arith, Date_bounds t d, Date_bounds v e, p, q);
      })
      (λ h.
        let last : t.day ≡ last_day t.year t.month = ground (arith, d.day_high) in
        let month = next_month-Steps t d in
        record {
          lands = month.lands;
          later = month.later;
          between = λ v e p q.
              let (y, m) = month.between v e p q in
              let high : v.day ≤ last_day t.year t.month = rw (sym y, sym m) e.day_high in
              (y, m, omega (arith, y, m, last, high, Date_bounds t d, Date_bounds v e, p, q));
        })

pub next_hour-Steps : (t : Time) → IsDate t → Steps SameHour t (next_hour t)
unfolding next_hour
next_hour-Steps t d =
    Steps-if SameHour (ltb t.hour 23) t (minute_at t.year t.month t.day (suc t.hour) 0) (next_day t)
      (λ h. record {
        lands = record {
          month_low = d.month_low;
          month_high = d.month_high;
          day_low = d.day_low;
          day_high = d.day_high;
          hour_high = ground arith;
          minute_high = omega arith;
        };
        later = omega (arith, Date_bounds t d);
        between = λ v e p q. omega (arith, Date_bounds t d, Date_bounds v e, p, q);
      })
      (λ h.
        let last : t.hour ≡ 23 = ground (arith, d.hour_high) in
        let day = next_day-Steps t d in
        record {
          lands = day.lands;
          later = day.later;
          between = λ v e p q.
              let (y, m, same_day) = day.between v e p q in
              (
                y,
                m,
                same_day,
                omega (arith, y, m, same_day, last, Date_bounds t d, Date_bounds v e, p, q),
              );
        })

-- The next minute comes at once: no date is between.
pub next_minute-Steps : (t : Time) → IsDate t → Steps SameMinute t (next_minute t)
unfolding next_minute
next_minute-Steps t d =
    Steps-if SameMinute (ltb t.minute 59) t
      (with_nanos t.nanos (minute_at t.year t.month t.day t.hour (suc t.minute)))
      (with_nanos t.nanos (next_hour t))
      (λ h. record {
        lands = record {
          month_low = d.month_low;
          month_high = d.month_high;
          day_low = d.day_low;
          day_high = d.day_high;
          hour_high = d.hour_high;
          minute_high = ground arith;
        };
        later = omega (arith, Date_bounds t d);
        between = λ v e p q. omega (arith, Date_bounds t d, Date_bounds v e, p, q);
      })
      (λ h.
        let last : t.minute ≡ 59 = ground (arith, d.minute_high) in
        let hour = next_hour-Steps t d in
        record {
          lands = with_nanos-IsDate t.nanos (next_hour t) hour.lands;
          later = hour.later;
          between = λ v e p q.
              let (y, m, day, same_hour) = hour.between v e p q in
              (
                y,
                m,
                day,
                same_hour,
                omega (arith, y, m, day, same_hour, last, Date_bounds t d, Date_bounds v e, p, q),
              );
        })
