-- ===== src/Store.antt =====
-- internal/store/store.go: the account and region namespaced store. The mutex is held over each
-- method and over a whole transaction, so a method is one step on the state. A byte slice is copied
-- on its way in and out, so a value is a plain list.
pub mod Txn
pub mod Isolation
pub mod Invariant
pub mod Listing
pub mod Contract
pub mod Resume
pub mod Scopes
pub mod Snapshot
mod Tests
use mirror_cloud.Common.{
  ℕ, ◌≡◌, Bool, true, false, ◌&&◌, ◌||◌, List, [], ◌∷◌, ◌++◌, map, Option, none, some, or_else,
  take, length, ltb, leb, if◌then◌else◌,
}
use mirror_cloud.Common.Int.{ℤ, pos, negsuc, up}
use mirror_cloud.Bytes.{Bytes, has_prefix, trim_prefix, is_empty, less, cut}
use mirror_cloud.Bytes.Sort.{sort_strings}
use mirror_cloud.GoMap.{GoMap, lookup, insert, remove}
use mirror_cloud.GoMap.Keys.{keys}

pub record Memory : Type 0 where
  pub table_of : GoMap (GoMap Bytes)
  pub lock_sha : Bytes

-- NewMemory
unfoldable pub new_memory : Bytes → Memory
new_memory sha = record { table_of = []; lock_sha = sha }

-- The separator "\x1f".
abbrev pub sep : ℕ
sep = 0x1f

unfoldable pub scope_key : Bytes → Bytes → Bytes
scope_key account region = account ++ sep ∷ region

pub record Identity : Type 0 where
  pub account : Bytes
  pub region : Bytes

-- The `scope` of an account and region.
pub record Scope : Type 0 where
  pub account : Bytes
  pub region : Bytes

abbrev pub key_of : Scope → Bytes
key_of s = scope_key s.account s.region

pub record Coll : Type 0 where
  pub scope : Scope
  pub name : Bytes

-- coll.full
unfoldable pub full : Bytes → Bytes → Bytes
full name key = name ++ sep ∷ key

-- m.data[sk]; a nil map reads as an empty one.
unfoldable pub table : Bytes → Memory → GoMap Bytes
table sk m = or_else [] (lookup sk m.table_of)

-- coll.Get and tx.Get
unfoldable pub get : Coll → Bytes → Memory → Option Bytes
unfolding table
get c key m = lookup (full c.name key) (table (key_of c.scope) m)

-- `if m.data[sk] == nil { m.data[sk] = map[string][]byte{} }`
ensure : Bytes → Memory → Memory
ensure sk m = elim (lookup sk m.table_of) [
  | none ↦ record m { table_of = insert sk [] m.table_of }
  | some _ ↦ m
]

-- coll.Put and tx.Put
unfoldable pub put : Coll → Bytes → Bytes → Memory → Memory
unfolding ensure table
put c key val m =
    let sk = key_of c.scope in
    let made = ensure sk m in
    record made {
      table_of = insert sk (insert (full c.name key) val (table sk made)) made.table_of;
    }

-- coll.Delete and tx.Delete; deleting from a nil map does nothing.
unfoldable pub delete : Coll → Bytes → Memory → Memory
delete c key m =
    let sk = key_of c.scope in
    elim (lookup sk m.table_of) [
      | none ↦ m
      | some t ↦ record m { table_of = insert sk (remove (full c.name key) t) m.table_of }
    ]

pub record Kv : Type 0 where
  pub key : Bytes
  pub value : Bytes

-- The loop of `listLocked` over the keys of a table.
unfoldable pub matching : Bytes → Bytes → Bytes → GoMap Bytes → List Bytes
matching name p after [] = []
matching name p after ((k, _) ∷ t) =
    let rest = matching name p after t in
    let naked = trim_prefix (name ++ sep ∷ []) k in
    if has_prefix p k
    then if is_empty after || less after naked then naked ∷ rest else rest
    else rest

-- The entry that `listLocked` answers for a key.
unfoldable pub entry_at : Coll → Memory → Bytes → Kv
unfolding table
entry_at c m k = record {
  key = k;
  value = or_else [] (lookup (full c.name k) (table (key_of c.scope) m));
}

-- coll.listLocked, which coll.List and tx.List call. Only a positive limit cuts.
unfoldable pub list_locked : Coll → Bytes → Bytes → ℤ → Memory → List Kv × Bool
unfolding matching entry_at table
list_locked c prefix after limit m =
    let found =
      sort_strings (matching c.name (full c.name prefix) after (table (key_of c.scope) m)) in
    let more = ltb 0 (up limit) && ltb (up limit) (length found) in
    let shown = if more then take (up limit) found else found in (map (entry_at c m) shown, more)

identity_of : Bytes → Identity
identity_of key = let parts = cut sep key in record { account = parts.0; region = parts.1 }

-- Memory.Scopes
unfoldable pub scopes : Memory → List Identity
unfolding identity_of
scopes m = map identity_of (sort_strings (keys m.table_of))
