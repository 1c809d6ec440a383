-- ===== src/Journal.antt =====
-- internal/journal/journal.go: the record of requests, newest last.
mod Query
mod Tests
use mathlib.Core.List.{reverse}
use mirror_cloud.Common.{
  ℕ, zero, suc, ◌+◌, Bool, true, false, not, ◌&&◌, ◌||◌, List, [], ◌∷◌, ◌++◌, Option, none, some,
  leb, ltb, if◌then◌else◌,
}
use mirror_cloud.Common.Int.{ℤ, up, ltz}
use mirror_cloud.Bytes.{Bytes, same, is_empty}

-- spi.Entry; the fields that no query reads are left out of sight in `note`.
pub record Entry : Type 0 where
  pub at : ℤ
  pub service_id : Bytes
  pub operation : Bytes
  pub note : Bytes

-- spi.Filter; `since` is none for the zero time.
pub record Filter : Type 0 where
  pub service_id : Bytes
  pub operation : Bytes
  pub since : Option ℤ
  pub limit : ℤ

pub record Journal : Type 0 where
  pub entries : List Entry

-- Memory.Record
unfoldable pub record_entry : Entry → Journal → Journal
record_entry e m = record { entries = m.entries ++ e ∷ [] }

too_old : Option ℤ → ℤ → Bool
too_old none at = false
too_old (some since) at = ltz at since

-- The tests of the loop that pass an entry over.
unfoldable pub skips : Filter → Entry → Bool
unfolding too_old
skips f e =
    if not (is_empty f.service_id) && not (same e.service_id f.service_id)
    then true
    else if not (is_empty f.operation) && not (same e.operation f.operation)
    then true
    else too_old f.since e.at

-- The loop of `Query` over the entries from the newest on, with `n` already in the answer.
unfoldable pub query_loop : Filter → ℕ → List Entry → List Entry
query_loop f n [] = []
query_loop f n (e ∷ es) =
    let passed = query_loop f n es in
    let further = query_loop f (suc n) es in
    if skips f e
    then passed
    else e ∷ (if ltb 0 (up f.limit) && leb (up f.limit) (suc n) then [] else further)

-- Memory.Query
unfoldable pub query : Filter → Journal → List Entry
unfolding query_loop
query f m = query_loop f 0 (reverse m.entries)
