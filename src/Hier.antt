-- ===== src/Hier.antt =====
-- hierList of internal/engine/tagmatch.go: blob names folded into a listing by a delimiter.
pub mod Listing
pub mod Entries
mod Tests
use mirror_cloud.Common.{
  ◌-◌, Bool, true, false, not, ◌&&◌, List, [], ◌∷◌, ◌++◌, Option, none, some, drop, length, take,
  if◌then◌else◌,
}
use mirror_cloud.Bytes.{Bytes, has_prefix, is_empty}
use mirror_cloud.Bytes.Sort.{has, sort_strings}

-- rest[:i+len(delim)] for the first i at which the delimiter stands, if there is one.
unfoldable pub up_to_first : Bytes → Bytes → Option Bytes
unfolding has_prefix
up_to_first delim [] = if has_prefix delim [] then some delim else none
up_to_first delim (c ∷ s) =
    let further = up_to_first delim s in
    if has_prefix delim (c ∷ s)
    then some delim
    else elim further [ none ↦ none | some head ↦ some (c ∷ head) ]

-- The entry of a name under the prefix.
unfoldable pub entry_of : Bytes → Bytes → Bytes → Bytes
unfolding up_to_first
entry_of prefix delim n =
    if not (is_empty delim)
    then elim (up_to_first delim (drop (length prefix) n)) [ none ↦ n | some head ↦ prefix ++ head ]
    else n

-- The loop over the names; the keys of `seen` are what is in the answer so far.
unfoldable pub hier_loop : Bytes → Bytes → List Bytes → List Bytes → List Bytes
unfolding entry_of
hier_loop prefix delim seen [] = []
hier_loop prefix delim seen (n ∷ names) =
    let entry = entry_of prefix delim n in
    let passed = hier_loop prefix delim seen names in
    let further = hier_loop prefix delim (entry ∷ seen) names in
    if not (has_prefix prefix n) then passed else if has entry seen then passed else entry ∷ further

-- hierList
unfoldable pub hier_list : List Bytes → Bytes → Bytes → List Bytes
unfolding hier_loop
hier_list names prefix delim = sort_strings (hier_loop prefix delim [] names)
