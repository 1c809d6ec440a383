-- ===== src/Schedule/Field.antt =====
-- The number fields of a cron expression: parseIntField of
-- internal/services/aws/scheduleexpr/expression.go.
pub mod Values
pub mod Ends
use mirror_cloud.Common.{
  ℕ, zero, suc, ◌+◌, ◌-◌, ◌*◌, ◌/◌, ◌^◌, ◌==◌, Bool, true, false, ◌&&◌, ◌||◌, not, List, [], ◌∷◌,
  ◌++◌, Option, none, some, length, map, ltb, leb, if◌then◌else◌,
}
use mirror_cloud.Common.Int.{ℤ, pos, negsuc, up, down, diff, ltz, ◌+ℤ◌}
use mirror_cloud.Bytes.{Bytes, codes, same, has_prefix, trim_prefix, cut, is_empty}
use mirror_cloud.Bytes.Fold.{has_suffix, trim_suffix}
use mirror_cloud.Bytes.Words.{split, fields}
use mirror_cloud.GoMap.{GoMap, lookup}
use mirror_cloud.Schedule.Calendar.{Time, zero_time}
use mirror_cloud.Schedule.Cron.{IntField, DayField, CronExpression, empty_day}
use mirror_cloud.Schedule.Next.{Expression, minute_nanos}

-- The errors of the file, by their messages.
pub data ScheduleError : Type 0 where
  bad_at bad_rate bad_rate_value bad_rate_unit rate_too_large bad_expression bad_cron bad_step
        bad_value out_of_range empty_field bad_w_day bad_hash_day bad_l_day :
      ScheduleError

pub data Result {ℓ} (A : Type ℓ) : Type ℓ where
  ok : A → Result A
  failed : ScheduleError → Result A

infixl 10 ◌>>=◌
abbrev pub ◌>>=◌ {ℓ κ} : {A : Type ℓ} {B : Type κ} → Result A → (A → Result B) → Result B
ok a >>= f = f a
failed e >>= f = failed e

-- The value, unless a test rejects it.
abbrev pub check {ℓ} : {A : Type ℓ} → Bool → ScheduleError → Result A → Result A
check bad e r = if bad then failed e else r

digits_value : ℕ → Bytes → Option ℕ
digits_value n [] = some n
digits_value n (a ∷ s) =
    let rest = digits_value (10 * n + (a - b'0')) s in
    if leb b'0' a && leb a b'9' then rest else none

-- The digits, of which there is at least one.
abbrev digits : Bytes → Option ℕ
unfolding digits_value
digits [] = none
digits (a ∷ s) = digits_value 0 (a ∷ s)

abbrev at_most_int : Option ℕ → Option ℤ
at_most_int none = none
at_most_int (some n) = if ltb n (2 ^ 63) then some (pos n) else none

abbrev minus_int : Option ℕ → Option ℤ
minus_int none = none
minus_int (some n) = if leb n (2 ^ 63) then some (diff 0 n) else none

-- strconv.Atoi and ParseInt(s, 10, 64)
unfoldable pub atoi : Bytes → Option ℤ
unfolding digits
atoi [] = none
atoi (a ∷ s) =
    if a == b'-'
    then minus_int (digits s)
    else if a == b'+'
    then at_most_int (digits s)
    else at_most_int (digits (a ∷ s))

abbrev pub or_error {ℓ} : {A : Type ℓ} → ScheduleError → Option A → Result A
or_error e none = failed e
or_error e (some a) = ok a

-- fieldNumber
unfoldable pub field_number : GoMap ℕ → Bytes → Result ℤ
unfolding lookup atoi
field_number names raw = elim (lookup raw names) [
  | some n ↦ ok (pos n)
  | none ↦ or_error bad_value (atoi raw)
]

-- A step that is not less than one.
unfoldable pub step_of : Bytes × Bytes × Bool → Result ℕ
unfolding atoi
step_of (base, raw, found) =
    if found
    then (or_error bad_step (atoi raw) >>= λ n. check (ltz n (pos 1)) bad_step (ok (up n)))
    else ok 1

-- n + step on an int64, which wraps round upwards.
abbrev pub wrap64 : ℤ → ℤ
wrap64 (pos n) = if ltb n (2 ^ 63) then pos n else diff n (2 ^ 64)
wrap64 (negsuc n) = negsuc n

unfoldable pub add_step : ℕ → ℤ → ℤ
unfolding ◌+ℤ◌
add_step step n = wrap64 (n +ℤ pos step)

-- The values from n to hi in steps, for a number of turns.
unfoldable pub steps : ℕ → ℕ → ℤ → ℤ → IntField
unfolding add_step
steps zero step hi n = []
steps (suc fuel) step hi n =
    let rest = steps fuel step hi (add_step step n) in if ltz hi n then [] else n ∷ rest

-- for n := lo; n <= hi; n += step
unfoldable pub step_values : ℕ → ℕ → ℤ → IntField
unfolding steps
step_values step lo hi = steps (up hi + 3) step hi (pos lo)

-- The first and the last value of an item.
unfoldable pub range_of : ℕ → ℕ → GoMap ℕ → Bytes → Bool → Result (ℤ × ℤ)
unfolding same cut field_number
range_of low high names base has_step =
    let (left, right, ranged) = cut b'-' base in
    if same base (codes "*")
    then ok (pos low, pos high)
    else (field_number names left >>= λ lo.
        if ranged
        then (field_number names right >>= λ hi. ok (lo, hi))
        else ok (lo, (if has_step then pos high else lo)))

-- A range outside that of the field, or backwards in a field that is not that of the hours.
abbrev pub bad_range : ℕ → ℕ → ℤ → ℤ → Bool
bad_range low high lo hi =
    ltz lo (pos low) || (ltz (pos high) hi || ltz hi lo && not (low == 0 && high == 23))

-- The values of a range, which goes round midnight where the field is that of the hours.
unfoldable pub range_values : ℕ → ℕ → ℕ → ℤ × ℤ → Result IntField
unfolding step_values
range_values low high step (lo, hi) =
    if bad_range low high lo hi
    then failed out_of_range
    else if ltz hi lo
    then ok (step_values step (up lo) (pos high) ++ step_values step low hi)
    else ok (step_values step (up lo) hi)

-- One item of a field.
unfoldable pub item_values : ℕ → ℕ → GoMap ℕ → Bytes → Result IntField
unfolding cut step_of range_of range_values
item_values low high names item =
    let (base, raw, found) = cut b'/' item in
    step_of (base, raw, found) >>= λ step.
    range_of low high names base found >>= λ r. range_values low high step r

unfoldable pub items_values : ℕ → ℕ → GoMap ℕ → List Bytes → Result IntField
unfolding item_values
items_values low high names [] = ok []
items_values low high names (item ∷ items) =
    item_values low high names item >>= λ f. items_values low high names items >>= λ g. ok (f ++ g)

-- parseIntField
unfoldable pub parse_int_field : Bytes → ℕ → ℕ → GoMap ℕ → Result IntField
unfolding items_values split
parse_int_field raw low high names =
    items_values low high names (split b',' raw) >>= λ f. check (length f == 0) empty_field (ok f)
