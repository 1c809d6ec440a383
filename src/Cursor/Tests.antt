-- ===== src/Cursor/Tests.antt =====
-- The cursor of an item of 2023, fifth of its millisecond.
use mirror_cloud.Common.{◌≡◌, refl}
use mirror_cloud.Common.Int.{pos, ◌+ℤ◌}
use mirror_cloud.Float.{finite, bit_len}
use mirror_cloud.Cursor.{page_cursor, slot_count, slot_bits, slot_of, wrap_mod, go_rem, join}

page_cursor_text : page_cursor (pos 1700000000000) (pos 5) ≡ finite (pos 6963200000000006) 12
unfolding page_cursor slot_of wrap_mod go_rem slot_count slot_bits bit_len ◌+ℤ◌ join
page_cursor_text = refl
