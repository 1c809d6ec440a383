-- ===== src/Page/Tests.antt =====
-- The cut of a listing at the middle one of three items made in one millisecond.
use mathlib.Core.List.{Memᴰ}
use mirror_cloud.Common.{ℕ, ◌≡◌, refl, true, false, List, [], ◌∷◌, none, some, arith}
use mirror_cloud.Common.Int.{pos, ◌+ℤ◌, ◌-ℤ◌}
use mirror_cloud.Cursor.{
  Cursor, ok, cursor_of, page_cursor, slot_count, slot_bits, slot_of, wrap_mod, go_rem, join,
}
use mirror_cloud.Float.{bit_len, round53, through_f64}
use mirror_cloud.Page.{Item, Entry, page_of, bound_of, older_than, newer_than, goes_before}
use mirror_cloud.Page.Cut.{bound_of-page_cursor}

abbrev made : ℕ → Entry
made seq = record { rec = seq; ms = pos 1700000000000; seq = pos seq }

abbrev three : List Entry
three = made 5 ∷ made 6 ∷ made 7 ∷ []

abbrev listed : List Entry → List Item
listed [] = []
listed (e ∷ es) = record { rec = e.rec; ms_member = some e.ms; seq_member = some e.seq } ∷ listed es

abbrev second : Cursor
second = record { set = true; ms = pos 1700000000000; slot = 7 }

second_parsed : cursor_of (page_cursor (pos 1700000000000) (pos 6)) ≡ ok second
unfolding cursor_of page_cursor slot_of wrap_mod go_rem slot_count slot_bits bit_len ◌+ℤ◌ join
second_parsed = refl

bound_of-page_cursor_example :
    (older_than (bound_of second three) (made 5) ≡ true)
    × (newer_than (bound_of second three) (made 5) ≡ false)
unfolding goes_before slot_count slot_bits bit_len ◌+ℤ◌
bound_of-page_cursor_example =
    bound_of-page_cursor (made 6) (pos 5) three second (Memᴰ.tail (Memᴰ.head refl))
      (
        (λ _. (omega arith, omega arith)),
        ((λ _. (omega arith, omega arith)), ((λ _. (omega arith, omega arith)), tt)),
      )
      (omega arith) (omega arith) second_parsed (made 5)

newest_two : page_of (listed three) [] [] false (pos 2) ≡ record {
  page = 7 ∷ 6 ∷ [];
  count = 2;
  next = some (page_cursor (pos 1700000000000) (pos 6));
  first = some (page_cursor (pos 1700000000000) (pos 7));
}
unfolding page_of goes_before round53 bit_len through_f64
newest_two = refl

then_the_rest : page_of (listed three) [] (second ∷ []) false (pos 2) ≡ record {
  page = 5 ∷ [];
  count = 1;
  next = none;
  first = some (page_cursor (pos 1700000000000) (pos 5));
}
unfolding page_of goes_before round53 bit_len bound_of slot_count slot_bits wrap_mod go_rem ◌+ℤ◌
    ◌-ℤ◌ older_than through_f64
then_the_rest = refl
