-- ===== src/Store/Tests.antt =====
-- The store theorems at concrete inputs.
use mirror_cloud.Common.{◌≡◌, refl, true, [], ◌∷◌, ◌++◌, none, if◌then◌else◌, some}
use mirror_cloud.Common.Int.{pos}
use mirror_cloud.Bytes.{codes, same, less, trim_prefix, has_byte}
use mirror_cloud.Bytes.Sort.{sort_strings}
use mirror_cloud.GoMap.{lookup, insert}
use mirror_cloud.Store.{
  Memory, Scope, Coll, key_of, scope_key, full, new_memory, get, put, delete, list_locked,
}
use mirror_cloud.Store.Isolation.{IsPlain, same_entry, get-put, get-delete}
use mirror_cloud.Store.Invariant.{IsWellFormed, new_memory-IsWellFormed, put-IsWellFormed}
use mirror_cloud.Store.Contract.{IsListing, list_locked-IsListing}
use mirror_cloud.Store.Resume.{list_locked-resume}
use mirror_cloud.Store.Snapshot.{
  Json, eof, file, bad_manifest, manifest_name, restore, snapshot, restore-snapshot, restore_atomic,
}
use mirror_cloud.Store.Txn.{TxBody, return_err, tx_put, tx_delete, run_txn}
use mirror_cloud.Store.Txn.Atomic.{run_txn_atomic}

abbrev east : Scope
east = record { account = codes "000000000000"; region = codes "us-east-1" }

abbrev west : Scope
west = record { account = codes "000000000000"; region = codes "us-west-2" }

abbrev queues : Coll
queues = record { scope = east; name = codes "queues" }

abbrev topics : Coll
topics = record { scope = east; name = codes "topics" }

abbrev sample : Memory
sample =
    put queues (codes "b") (codes "2")
      (put topics (codes "t") (codes "9") (put queues (codes "a") (codes "1") (new_memory [])))

sample-IsWellFormed : IsWellFormed sample
sample-IsWellFormed = put-IsWellFormed queues (codes "b") (codes "2") (
    put-IsWellFormed topics (codes "t") (codes "9")
      (put-IsWellFormed queues (codes "a") (codes "1") (new_memory-IsWellFormed [])))

lists_one :
    list_locked queues [] [] (pos 1) sample
    ≡ (record { key = codes "a"; value = codes "1" } ∷ [], true)
unfolding list_locked put new_memory full scope_key insert lookup same sort_strings trim_prefix less
lists_one = refl

list_locked-IsListing_example :
    IsListing
      (λ k. get queues k sample)
      []
      []
      (pos 1)
      (list_locked queues [] [] (pos 1) sample).0
      (list_locked queues [] [] (pos 1) sample).1
list_locked-IsListing_example = list_locked-IsListing queues [] [] (pos 1) sample-IsWellFormed

list_locked-resume_example :
    (list_locked queues [] [] (pos 1) sample).0
      ++ (list_locked queues [] (codes "a") (pos 0) sample).0
    ≡ (list_locked queues [] [] (pos 0) sample).0
unfolding list_locked put new_memory full scope_key insert lookup same sort_strings trim_prefix less
list_locked-resume_example =
    list_locked-resume queues [] [] (pos 1) (codes "a") sample-IsWellFormed refl (λ e. cc)

-- Deletes one entry, writes another, and then fails.
abbrev failing : TxBody
failing =
    tx_delete (codes "queues") (codes "a")
      (tx_put (codes "new") (codes "x") (codes "3") (return_err (codes "no")))

run_txn_atomic_example :
    lookup (key_of east) (run_txn east failing sample).0.table_of
    ≡ lookup (key_of east) sample.table_of
run_txn_atomic_example =
    run_txn_atomic east failing sample {e = codes "no"} (unfold run_txn in refl) (key_of east)

queues-IsPlain : IsPlain queues
queues-IsPlain = record { account = unfold has_byte in refl; name = unfold has_byte in refl }

topics-IsPlain : IsPlain topics
topics-IsPlain = record { account = unfold has_byte in refl; name = unfold has_byte in refl }

get-put_example : get topics (codes "a") (put queues (codes "a") (codes "7") sample) ≡ none
unfolding get put new_memory full scope_key insert lookup same
get-put_example = get-put queues-IsPlain topics-IsPlain (codes "a") (codes "a") (codes "7") sample

get-delete_example : get topics (codes "a") (delete queues (codes "a") sample) ≡ (
    if same_entry queues (codes "a") topics (codes "a")
    then none
    else get topics (codes "a") sample)
get-delete_example = get-delete queues-IsPlain topics-IsPlain (codes "a") (codes "a") sample

-- The texts of one table are read back, and no other.
abbrev plain : Json
plain = record {
  write_manifest = λ sha. sha;
  read_manifest = λ s. if same s (codes "{") then none else some s;
  write_tables = λ t. codes "tables";
  read_tables = λ s. if same s (codes "tables") then some sample.table_of else none;
}

restore_atomic_example : (restore plain (file manifest_name (codes "{") eof) sample).0 ≡ sample
unfolding restore insert lookup same
restore_atomic_example =
    restore_atomic plain (file manifest_name (codes "{") eof) sample {e = bad_manifest} refl

abbrev pinned : Memory
pinned = new_memory (codes "abc")

restore-snapshot_example :
    restore plain (snapshot plain sample) pinned
    ≡ (record { table_of = sample.table_of; lock_sha = codes "abc" }, none)
unfolding new_memory put lookup insert same scope_key
restore-snapshot_example = restore-snapshot plain sample pinned refl refl
