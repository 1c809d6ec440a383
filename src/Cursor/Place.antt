-- ===== src/Cursor/Place.antt =====
-- The two parts of a cursor's number (internal/engine/cursor.go).
use native.Mathlib.Nat.{mul-add-div, mul-add-mod_self_left, div-eq_of_lt, mod-eq_of_lt}
use mirror_cloud.Common.{ℕ, suc, ◌+◌, ◌-◌, ◌*◌, ◌≤◌, ◌<◌, ◌≡◌, arith}
use mirror_cloud.Common.Int.{ℤ, pos, negsuc}
use mirror_cloud.Cursor.{join, floor_div, floor_mod, clamp, magnitude, max_cursor_ms}

join_pos : (a d slot : ℕ) → join (pos a) d slot ≡ pos (d * a + slot)
unfolding join
join_pos a d slot = ground arith

join_negsuc : (a d slot : ℕ) → slot < d → join (negsuc a) d slot ≡ negsuc (d * a + (d - 1 - slot))
unfolding join
join_negsuc a d slot h = ground arith

pub floor_div-join : (ms : ℤ) (d slot : ℕ) → slot < d → floor_div (join ms d slot) d ≡ ms
unfolding floor_div
floor_div-join (pos a) d slot h =
    rw (join_pos a d slot)
      (ground (arith, mul-add-div {m = d} (omega arith) a slot, div-eq_of_lt {n = slot} {m = d} h))
floor_div-join (negsuc a) d slot h = rw (join_negsuc a d slot h) (
    ground (
      arith,
      mul-add-div {m = d} (omega arith) a (d - 1 - slot),
      div-eq_of_lt {n = d - 1 - slot} {m = d} (omega arith),
    ))

pub floor_mod-join : (ms : ℤ) (d slot : ℕ) → slot < d → floor_mod (join ms d slot) d ≡ slot
unfolding floor_mod
floor_mod-join (pos a) d slot h =
    rw (join_pos a d slot)
      (ground (arith, mul-add-mod_self_left d a slot, mod-eq_of_lt {n = slot} {m = d} h))
floor_mod-join (negsuc a) d slot h = rw (join_negsuc a d slot h) (
    ground (
      arith,
      mul-add-mod_self_left d a (d - 1 - slot),
      mod-eq_of_lt {n = d - 1 - slot} {m = d} (omega arith),
    ))

-- A number whose millisecond is within the bound is not clamped.
pub clamp-join :
    (ms : ℤ) (d slot : ℕ)
    → slot < d
    → magnitude ms < max_cursor_ms
    → clamp (join ms d slot) d ≡ join ms d slot
unfolding clamp
clamp-join (pos a) d slot h m =
    rw (join_pos a d slot)
      (let below : d * a + slot ≤ max_cursor_ms * d = grind arith in ground arith)
clamp-join (negsuc a) d slot h m =
    rw (join_negsuc a d slot h)
      (let below : suc (d * a + (d - 1 - slot)) ≤ max_cursor_ms * d = grind arith in ground arith)
