-- ===== src/Cursor/RoundTrip.antt =====
-- A cursor that is answered for an item reads back as the item's millisecond and place
-- (internal/engine/cursor.go).
use native.Mathlib.Nat.{mod-lt, mul-mod_left, div-eq_of_eq-mul_left}
use mirror_cloud.Common.{
  ℕ, ◌*◌, ◌/◌, ◌^◌, ◌≤◌, ◌<◌, ◌≡◌, ◌≢◌, refl, true, Bool-cases, inl, inr, arith, ◌==◌,
}
use mirror_cloud.Common.Int.{ℤ, pos, negsuc, up, ◌+ℤ◌}
use mirror_cloud.Float.{finite}
use mirror_cloud.Float.Exact.{through_f64_exact}
use mirror_cloud.Cursor.{
  join, magnitude, max_cursor_ms, slot_bits, slot_count, slot_of, wrap_mod, go_rem, page_cursor,
  cursor_of, ok,
}
use mirror_cloud.Cursor.Place.{floor_div-join, floor_mod-join, clamp-join}

wrap_mod-lt : (i : ℤ) (n : ℕ) → 0 < n → wrap_mod i n < n
unfolding wrap_mod
wrap_mod-lt i n h = mod-lt (up (go_rem i n +ℤ pos n)) h

-- A place is one of the slots, or 0 where there is none.
pub slot_of-le : (ms seq : ℤ) → slot_of ms seq ≤ slot_count ms
unfolding slot_of
slot_of-le ms seq = ground (arith, wrap_mod-lt seq (slot_count ms))

slot_of-lt : (ms seq : ℤ) → slot_of ms seq ≢ 0 → slot_of ms seq < 2 ^ slot_bits ms
unfolding slot_count
slot_of-lt ms seq h = omega (arith, slot_of-le ms seq)

join-whole : (ms : ℤ) → join ms 1 0 ≡ ms
unfolding join
join-whole (pos a) = ground arith
join-whole (negsuc a) = ground arith

-- Reading a number in its two parts.
read_whole :
    (ms : ℤ)
    → magnitude ms < max_cursor_ms
    → cursor_of (finite ms 0) ≡ ok (record { set = true; ms = ms; slot = 0 })
unfolding cursor_of
read_whole ms h = ground (
  arith,
  join-whole ms,
  clamp-join ms 1 0 (omega arith) h,
  floor_div-join ms 1 0 (omega arith),
  floor_mod-join ms 1 0 (omega arith),
)

times_over : (a d : ℕ) → 0 < d → a * d / d ≡ a
times_over a d h = div-eq_of_eq-mul_left h refl

read_join :
    (ms : ℤ) (slot : ℕ)
    → magnitude ms < max_cursor_ms
    → slot ≢ 0
    → slot < 2 ^ slot_bits ms
    → cursor_of (finite (join ms (2 ^ slot_bits ms) slot) (slot_bits ms))
      ≡ ok (record { set = true; ms = ms; slot = slot })
unfolding cursor_of
read_join ms slot h n lt =
    let d = 2 ^ slot_bits ms in
    ground (
      arith,
      clamp-join ms d slot lt h,
      floor_div-join ms d slot lt,
      floor_mod-join ms d slot lt,
      mul-mod_left slot d,
      times_over slot d (omega arith),
    )

-- A cursor made for a millisecond below 2^53 in magnitude reads back without an error as that
-- millisecond and the item's place in it.
pub cursor_of-page_cursor :
    (ms seq : ℤ)
    → magnitude ms < max_cursor_ms
    → cursor_of (page_cursor ms seq) ≡ ok (record { set = true; ms = ms; slot = slot_of ms seq })
unfolding page_cursor
cursor_of-page_cursor ms seq h = elim (Bool-cases (slot_of ms seq == 0)) [
  | inl e ↦
      let z : slot_of ms seq ≡ 0 = ground arith in
      rw (z, page_cursor) (rw (through_f64_exact ms h) (read_whole ms h))
  | inr e ↦
      rw (e, page_cursor)
        (read_join ms (slot_of ms seq) h (ground arith) (slot_of-lt ms seq (ground arith)))
]
