-- ===== src/Cursor.antt =====
-- internal/engine/cursor.go: a listing cursor is a float64 that keeps a millisecond in its integer
-- part and a place among the items of that millisecond in its fraction.
pub mod Place
pub mod RoundTrip
pub mod Wrap
mod Tests
use mirror_cloud.Common.{
  ℕ, zero, suc, ◌+◌, ◌-◌, ◌*◌, ◌/◌, ◌%◌, ◌^◌, min, Bool, true, false, ◌==◌, ltb, if◌then◌else◌,
}
use mirror_cloud.Common.Int.{ℤ, pos, negsuc, up, down, diff, ◌+ℤ◌, ltz}
use mirror_cloud.Float.{F64, finite, inf, nan, bit_len, through_f64}

abbrev pub float_bits : ℕ
float_bits = 53

abbrev pub max_slot_bits : ℕ
max_slot_bits = 12

abbrev pub max_cursor_ms : ℕ
max_cursor_ms = 2 ^ float_bits

-- uint64(ms), negated in two's complement below 0: the magnitude.
abbrev pub magnitude : ℤ → ℕ
magnitude ms = up ms + down ms

-- slotBits
unfoldable pub slot_bits : ℤ → ℕ
slot_bits ms = min (float_bits - bit_len (magnitude ms)) max_slot_bits

-- slotCount
unfoldable pub slot_count : ℤ → ℕ
slot_count ms = 2 ^ slot_bits ms - 1

-- i % n of Go, which has the sign of i.
unfoldable pub go_rem : ℤ → ℕ → ℤ
go_rem (pos a) n = pos (a % n)
go_rem (negsuc a) n = diff 0 (suc a % n)

-- ((i % n) + n) % n, for a positive n.
unfoldable pub wrap_mod : ℤ → ℕ → ℕ
unfolding go_rem
wrap_mod i n = up (go_rem i n +ℤ pos n) % n

-- slotOf
unfoldable pub slot_of : ℤ → ℤ → ℕ
slot_of ms seq = let n = slot_count ms in if n == 0 then 0 else suc (wrap_mod seq n)

-- ms * d + slot
unfoldable pub join : ℤ → ℕ → ℕ → ℤ
join ms d slot = diff (up ms * d + slot) (down ms * d)

-- pageCursor
unfoldable pub page_cursor : ℤ → ℤ → F64
page_cursor ms seq =
    let slot = slot_of ms seq in
    if slot == 0
    then finite (through_f64 ms) 0
    else finite (join ms (2 ^ slot_bits ms) slot) (slot_bits ms)

pub record Cursor : Type 0 where
  pub set : Bool
  pub ms : ℤ
  pub slot : ℕ

pub data CursorError : Type 0 where
  not_a_number no_place : CursorError

pub data Parsed : Type 0 where
  ok : Cursor → Parsed
  err : CursorError → Parsed

-- The greatest integer that is not above n / d, and what n is above it.
unfoldable pub floor_div : ℤ → ℕ → ℤ
floor_div (pos a) d = pos (a / d)
floor_div (negsuc a) d = negsuc (a / d)

unfoldable pub floor_mod : ℤ → ℕ → ℕ
floor_mod (pos a) d = a % d
floor_mod (negsuc a) d = d - 1 - a % d

-- min(max(f, -maxCursorMS), maxCursorMS), over the denominator d.
unfoldable pub clamp : ℤ → ℕ → ℤ
clamp n d =
    if ltb (max_cursor_ms * d) (up n)
    then pos (max_cursor_ms * d)
    else if ltb (max_cursor_ms * d) (down n)
    then diff 0 (max_cursor_ms * d)
    else n

-- cursorOf
unfoldable pub cursor_of : F64 → Parsed
unfolding clamp floor_div floor_mod
cursor_of nan = err not_a_number
cursor_of (inf _) = err not_a_number
cursor_of (finite num e) =
    let d = 2 ^ e in
    let n = clamp num d in
    let ms = floor_div n d in
    let frac = floor_mod n d in
    let places = frac * 2 ^ slot_bits ms in
    if frac == 0
    then ok (record { set = true; ms = ms; slot = 0 })
    else if places % d == 0
    then ok (record { set = true; ms = ms; slot = places / d })
    else err no_place
