-- ===== src/Store/Snapshot.antt =====
-- Snapshot and Restore of internal/store/store.go. An archive is its named files, as the tar layer
-- of the standard library keeps them; the JSON layer is a parameter.
use mirror_cloud.Common.{
  ◌≡◌, ap, ◌∙◌, Bool, not, ◌&&◌, [], Option, none, some, arith, if◌then◌else◌, or_else,
}
use mirror_cloud.Bytes.{Bytes, same, is_empty, codes}
use mirror_cloud.GoMap.{GoMap, lookup, insert}
use mirror_cloud.Store.{Memory}

-- json.Marshal and json.Unmarshal on the manifest's hash and on the tables. Marshal writes a text
-- that is not valid UTF-8 as another one, so that not every table comes back. A nil map of tables
-- is an empty one here: a write to it, which panics, is not modelled.
pub record Json : Type 0 where
  pub write_manifest : Bytes → Bytes
  pub read_manifest : Bytes → Option Bytes
  pub write_tables : GoMap (GoMap Bytes) → Bytes
  pub read_tables : Bytes → Option (GoMap (GoMap Bytes))

-- What the tar reader meets, in order; `torn` is a read that fails.
pub data Archive : Type 0 where
  eof torn : Archive
  file : Bytes → Bytes → Archive → Archive

pub data RestoreError : Type 0 where
  read_error bad_manifest bad_tables : RestoreError
  lock_mismatch : Bytes → Bytes → RestoreError

abbrev pub manifest_name : Bytes
manifest_name = codes "manifest.json"

abbrev pub store_name : Bytes
store_name = codes "store.json"

-- The loop over the archive; a later file of a name replaces an earlier one.
unfoldable pub read_files : GoMap Bytes → Archive → Option (GoMap Bytes)
read_files files eof = some files
read_files files torn = none
read_files files (file name body rest) = read_files (insert name body files) rest

-- Whether the lock hashes of two stores forbid a restore: both set, and different.
abbrev pub locks_differ : Bytes → Bytes → Bool
locks_differ sha own = (not (is_empty own) && not (is_empty sha)) && not (same sha own)

-- The store after the manifest and the tables are decoded, or have failed to be, in this order.
abbrev pub install :
    Option Bytes → Option (GoMap (GoMap Bytes)) → Memory → Memory × Option RestoreError
install none t m = (m, some bad_manifest)
install (some sha) t m =
    if locks_differ sha m.lock_sha
    then (m, some (lock_mismatch sha m.lock_sha))
    else elim t [ none ↦ (m, some bad_tables) | some d ↦ (record m { table_of = d }, none) ]

module _ (json : Json) where
  -- Memory.Snapshot
  unfoldable pub snapshot : Memory → Archive
  snapshot m =
      file manifest_name (json.write_manifest m.lock_sha)
        (file store_name (json.write_tables m.table_of) eof)

  -- The files decoded; one that is not there is empty input.
  unfoldable pub restore_files : GoMap Bytes → Memory → Memory × Option RestoreError
  unfolding lookup
  restore_files files m =
      install (json.read_manifest (or_else [] (lookup manifest_name files)))
        (json.read_tables (or_else [] (lookup store_name files))) m

  -- Memory.Restore
  unfoldable pub restore : Archive → Memory → Memory × Option RestoreError
  unfolding read_files restore_files
  restore a m = elim (read_files [] a) [
    | none ↦ (m, some read_error)
    | some files ↦ restore_files files m
  ]

  -- Restoring a snapshot of one store into another gives it the tables of the first and keeps its
  -- own lock hash, unless both hashes are set and differ: then it fails and changes nothing. It is
  -- stated where JSON reads back the hash and the tables that it wrote.
  pub restore-snapshot :
      (m n : Memory)
      → json.read_manifest (json.write_manifest m.lock_sha) ≡ some m.lock_sha
      → json.read_tables (json.write_tables m.table_of) ≡ some m.table_of
      → restore (snapshot m) n ≡ (
          if locks_differ m.lock_sha n.lock_sha
          then (n, some (lock_mismatch m.lock_sha n.lock_sha))
          else (record n { table_of = m.table_of }, none))
  unfolding restore lookup snapshot insert same
  restore-snapshot m n h k =
      ap (λ o. install o (json.read_tables (json.write_tables m.table_of)) n) h
      ∙ ap (λ t. install (some m.lock_sha) t n) k

  -- A restore that fails, at any step, leaves the store as it was.
  pub restore_atomic :
      (a : Archive) (m : Memory) {e : RestoreError} → (restore a m).1 ≡ some e → (restore a m).0 ≡ m
  unfolding restore
  restore_atomic a m h = ground arith
