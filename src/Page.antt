-- ===== src/Page.antt =====
-- internal/engine/page.go: the page that a listing answers, newest first.
pub mod Cut
mod Tests
use mirror_cloud.Common.{
  ℕ, zero, suc, ◌-◌, min, Bool, true, false, not, ◌&&◌, ◌||◌, List, [], ◌∷◌, Option, none, some,
  or_else, map, take, get_elem?, keep_if, length, map_option, ◌==◌, ltb, if◌then◌else◌,
}
use mirror_cloud.Common.Int.{ℤ, pos, up, down, ltz, ◌+ℤ◌, ◌-ℤ◌}
use mirror_cloud.Float.{F64, through_f64}
use mirror_cloud.Cursor.{Cursor, slot_count, wrap_mod, page_cursor}

-- A listed record, which the listing hands on as it is, with its two numbers where it has them.
pub record Item : Type 0 where
  pub rec : ℕ
  pub ms_member : Option ℤ
  pub seq_member : Option ℤ

pub record Entry : Type 0 where
  pub rec : ℕ
  pub ms : ℤ
  pub seq : ℤ

number_of : Option ℤ → ℤ
number_of o = through_f64 (or_else (pos 0) o)

-- entriesOf
unfoldable pub entries_of : List Item → List Entry
unfolding number_of
entries_of [] = []
entries_of (it ∷ items) =
    record { rec = it.rec; ms = number_of it.ms_member; seq = number_of it.seq_member }
    ∷ entries_of items

pub record Bound : Type 0 where
  pub cursor : Cursor
  pub seq : ℤ

abbrev pub eqz : ℤ → ℤ → Bool
eqz i j = (up i == up j) && (down i == down j)

abbrev pub min_ℤ : ℤ → ℤ → ℤ
min_ℤ i j = if ltz j i then j else i

abbrev pub max_ℤ : ℤ → ℤ → ℤ
max_ℤ i j = if ltz i j then j else i

abbrev pub widen : ℤ → Option (ℤ × ℤ) → Option (ℤ × ℤ)
widen seq none = some (seq, seq)
widen seq (some (lo, hi)) = some (min_ℤ lo seq, max_ℤ hi seq)

-- The loop over the items made in the cursor's millisecond: the least and the greatest sequence.
unfoldable pub run_of : ℤ → List Entry → Option (ℤ × ℤ) → Option (ℤ × ℤ)
run_of ms [] acc = acc
run_of ms (e ∷ es) acc = run_of ms es (if eqz e.ms ms then widen e.seq acc else acc)

-- boundOf
unfoldable pub place_in : ℕ → ℕ → Option (ℤ × ℤ) → ℤ
place_in slot n none = pos 0 +ℤ pos (wrap_mod (pos slot -ℤ pos 1 -ℤ pos 0) n)
place_in slot n (some (lo, hi)) =
    let seq = lo +ℤ pos (wrap_mod (pos slot -ℤ pos 1 -ℤ lo) n) in
    if ltz hi seq && ltz (lo -ℤ (seq -ℤ pos n)) (seq -ℤ hi) then seq -ℤ pos n else seq

unfoldable pub bound_of : Cursor → List Entry → Bound
unfolding run_of place_in
bound_of c es =
    if c.slot == 0
    then record { cursor = c; seq = pos 0 }
    else record { cursor = c; seq = place_in c.slot (slot_count c.ms) (run_of c.ms es none) }

-- bound.olderThan
unfoldable pub older_than : Bound → Entry → Bool
older_than b e =
    if not b.cursor.set
    then true
    else ltz e.ms b.cursor.ms || not (b.cursor.slot == 0) && eqz e.ms b.cursor.ms && ltz e.seq b.seq

-- bound.newerThan
unfoldable pub newer_than : Bound → Entry → Bool
newer_than b e =
    if not b.cursor.set
    then true
    else ltz b.cursor.ms e.ms || not (b.cursor.slot == 0) && eqz e.ms b.cursor.ms && ltz b.seq e.seq

unfoldable pub within : List Bound → List Bound → Entry → Bool
unfolding newer_than older_than
within [] [] e = true
within [] (b ∷ older) e = older_than b e && within [] older e
within (b ∷ newer) older e = newer_than b e && within newer older e

-- The order of the sort: whether a comes before b, newest first or, ascending, the other way.
unfoldable pub goes_before : Bool → Entry → Entry → Bool
goes_before false a b = if eqz a.ms b.ms then ltz b.seq a.seq else ltz b.ms a.ms
goes_before true a b = if eqz b.ms a.ms then ltz a.seq b.seq else ltz a.ms b.ms

insert_entry : Bool → Entry → List Entry → List Entry
insert_entry ascending e [] = e ∷ []
insert_entry ascending e (f ∷ fs) =
    if goes_before ascending f e then f ∷ insert_entry ascending e fs else e ∷ f ∷ fs

-- sort.SliceStable by that order: an entry stays before the later ones that do not go before it.
unfoldable pub sort_entries : Bool → List Entry → List Entry
unfolding insert_entry goes_before
sort_entries ascending [] = []
sort_entries ascending (e ∷ es) = insert_entry ascending e (sort_entries ascending es)

pub record PageAnswer : Type 0 where
  pub page : List ℕ
  pub count : ℕ
  pub next : Option F64
  pub first : Option F64

cursor_at : ℕ → List Entry → Option F64
cursor_at i es = map_option (λ e. page_cursor e.ms e.seq) (get_elem? es i)

-- pageOf
unfoldable pub page_of : List Item → List Cursor → List Cursor → Bool → ℤ → PageAnswer
unfolding entries_of bound_of within sort_entries cursor_at
page_of items newer older ascending limit =
    let es = entries_of items in
    let newer_bounds = map (λ c. bound_of c es) newer in
    let older_bounds = map (λ c. bound_of c es) older in
    let keep = sort_entries ascending (keep_if (within newer_bounds older_bounds) es) in
    let shown = take (up limit) keep in
    record {
      page = map (λ e. e.rec) shown;
      count = length shown;
      next =
          if ltb 0 (up limit) && ltb (up limit) (length keep)
          then cursor_at (up limit - 1) keep
          else none;
      first = cursor_at 0 keep;
    }
