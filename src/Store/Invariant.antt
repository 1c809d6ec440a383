-- ===== src/Store/Invariant.antt =====
-- The well-formedness of the store: every map has each key once, and every scope key is the join
-- of an account and a region.
use mirror_cloud.Common.{
  ◌≡◌, ap, subst, true, false, [], or_else, Option-cases, Bool-cases, inl, inr, is_some,
}
use mirror_cloud.Bytes.{Bytes, same, same_iff, has_byte}
use mirror_cloud.Bytes.Parts.{has_byte-append}
use mirror_cloud.Bytes.Sort.{IsDistinct}
use mirror_cloud.GoMap.{lookup, insert, remove}
use mirror_cloud.GoMap.Keys.{keys, insert-IsDistinct, remove-IsDistinct}
use mirror_cloud.Store.{
  Memory, Scope, Coll, sep, scope_key, key_of, full, table, ensure, put, delete, new_memory,
}
use mirror_cloud.Store.Isolation.{
  table-put_self, table-delete_self, lookup-put_scope, lookup-delete_scope,
}

pub record IsWellFormed (m : Memory) : Type 0 where
  pub scopes_once : IsDistinct (keys m.table_of)
  pub joined : (sk : Bytes) → is_some (lookup sk m.table_of) ≡ true → has_byte sep sk ≡ true
  pub keys_once : (sk : Bytes) → IsDistinct (keys (table sk m))

pub new_memory-IsWellFormed : (sha : Bytes) → IsWellFormed (new_memory sha)
unfolding new_memory table lookup
new_memory-IsWellFormed sha = record { scopes_once = tt; joined = λ sk h. cc; keys_once = λ sk. tt }

has_byte-key_of : (s : Scope) → has_byte sep (key_of s) ≡ true
unfolding scope_key
has_byte-key_of s = has_byte-append sep s.account s.region

table-put_ne :
    (c : Coll) (key val sk : Bytes) (m : Memory)
    → same (key_of c.scope) sk ≡ false
    → table sk (put c key val m) ≡ table sk m
unfolding table
table-put_ne c key val sk m h = ap (or_else []) (lookup-put_scope c key val sk m h)

table-delete_ne :
    (c : Coll) (key sk : Bytes) (m : Memory)
    → same (key_of c.scope) sk ≡ false
    → table sk (delete c key m) ≡ table sk m
unfolding table
table-delete_ne c key sk m h = ap (or_else []) (lookup-delete_scope c key sk m h)

ensure-IsDistinct :
    (sk : Bytes) (m : Memory)
    → IsDistinct (keys m.table_of)
    → IsDistinct (keys (ensure sk m).table_of)
unfolding ensure
ensure-IsDistinct sk m d = elim (Option-cases (lookup sk m.table_of)) [
  | inl e ↦ rw (e, ensure) (insert-IsDistinct sk [] m.table_of d)
  | inr (t, e) ↦ rw (e, ensure) d
]

scopes_once-put :
    (c : Coll) (key val : Bytes) (m : Memory)
    → IsDistinct (keys m.table_of)
    → IsDistinct (keys (put c key val m).table_of)
unfolding put
scopes_once-put c key val m d =
    insert-IsDistinct (key_of c.scope)
      (insert (full c.name key) val (table (key_of c.scope) (ensure (key_of c.scope) m)))
      (ensure (key_of c.scope) m).table_of (ensure-IsDistinct (key_of c.scope) m d)

scopes_once-delete :
    (c : Coll) (key : Bytes) (m : Memory)
    → IsDistinct (keys m.table_of)
    → IsDistinct (keys (delete c key m).table_of)
unfolding delete
scopes_once-delete c key m d = elim (Option-cases (lookup (key_of c.scope) m.table_of)) [
  | inl e ↦ rw (e, delete) d
  | inr (t, e) ↦
      rw (e, delete) (insert-IsDistinct (key_of c.scope) (remove (full c.name key) t) m.table_of d)
]

pub put-IsWellFormed :
    (c : Coll) (key val : Bytes) {m : Memory} → IsWellFormed m → IsWellFormed (put c key val m)
put-IsWellFormed c key val {m} w = record {
  scopes_once = scopes_once-put c key val m w.scopes_once;
  joined = λ sk h. elim (Bool-cases (same (key_of c.scope) sk)) [
    | inl e ↦
        subst (λ k. has_byte sep k ≡ true) ((same_iff (key_of c.scope) sk).0 e)
          (has_byte-key_of c.scope)
    | inr e ↦ w.joined sk (rw (lookup-put_scope c key val sk m e) at h)
  ];
  keys_once = λ sk. elim (Bool-cases (same (key_of c.scope) sk)) [
    | inl e ↦
        subst (λ k. IsDistinct (keys (table k (put c key val m))))
          ((same_iff (key_of c.scope) sk).0 e)
          (rw (table-put_self c key val m) (
            insert-IsDistinct (full c.name key) val (table (key_of c.scope) m)
              (w.keys_once (key_of c.scope))))
    | inr e ↦ rw (table-put_ne c key val sk m e) (w.keys_once sk)
  ];
}

pub delete-IsWellFormed :
    (c : Coll) (key : Bytes) {m : Memory} → IsWellFormed m → IsWellFormed (delete c key m)
delete-IsWellFormed c key {m} w = record {
  scopes_once = scopes_once-delete c key m w.scopes_once;
  joined = λ sk h. elim (Bool-cases (same (key_of c.scope) sk)) [
    | inl e ↦
        subst (λ k. has_byte sep k ≡ true) ((same_iff (key_of c.scope) sk).0 e)
          (has_byte-key_of c.scope)
    | inr e ↦ w.joined sk (rw (lookup-delete_scope c key sk m e) at h)
  ];
  keys_once = λ sk. elim (Bool-cases (same (key_of c.scope) sk)) [
    | inl e ↦
        subst (λ k. IsDistinct (keys (table k (delete c key m))))
          ((same_iff (key_of c.scope) sk).0 e)
          (rw (table-delete_self c key m) (
            remove-IsDistinct (full c.name key) (table (key_of c.scope) m)
              (w.keys_once (key_of c.scope))))
    | inr e ↦ rw (table-delete_ne c key sk m e) (w.keys_once sk)
  ];
}
