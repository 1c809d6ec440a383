-- ===== src/Store/Txn/Atomic.antt =====
-- Atomicity of the transactions of internal/store/store.go.
use mirror_cloud.Common.{◌≡◌, refl, ◌∙◌, false, some, arith, Option-cases, inl, inr}
use mirror_cloud.Bytes.{Bytes, same, same_iff}
use mirror_cloud.GoMap.{lookup, lookup-insert, lookup-remove}
use mirror_cloud.Store.{Memory, Scope, key_of, get, put, delete, list_locked}
use mirror_cloud.Store.Isolation.{lookup-put_scope, lookup-delete_scope}
use mirror_cloud.Store.Txn.{
  TxBody, return_nil, return_err, tx_get, tx_put, tx_delete, tx_list, in_scope, run_body,
  restore_table, run_txn,
}

run_body_elsewhere :
    (s : Scope) (sk : Bytes) (b : TxBody) (m : Memory)
    → same (key_of s) sk ≡ false
    → lookup sk (run_body s b m).0.table_of ≡ lookup sk m.table_of
unfolding run_body
run_body_elsewhere s sk return_nil m h = refl
run_body_elsewhere s sk (return_err e) m h = refl
run_body_elsewhere s sk (tx_get name key k) m h =
    run_body_elsewhere s sk (k (get (in_scope s name) key m)) m h
run_body_elsewhere s sk (tx_put name key val b) m h =
    run_body_elsewhere s sk b (put (in_scope s name) key val m) h
    ∙ lookup-put_scope (in_scope s name) key val sk m h
run_body_elsewhere s sk (tx_delete name key b) m h =
    run_body_elsewhere s sk b (delete (in_scope s name) key m) h
    ∙ lookup-delete_scope (in_scope s name) key sk m h
run_body_elsewhere s sk (tx_list name prefix after limit k) m h =
    run_body_elsewhere s sk (k (list_locked (in_scope s name) prefix after limit m)) m h

lookup-restore_table :
    (s : Scope) (sk : Bytes) (b : TxBody) (m : Memory)
    → lookup sk (restore_table s m (run_body s b m).0).table_of ≡ lookup sk m.table_of
unfolding restore_table
lookup-restore_table s sk b m = elim (Option-cases (lookup (key_of s) m.table_of)) [
  | inl e ↦
      rw (e, restore_table, lookup-remove)
        (ground (arith, same_iff (key_of s) sk, run_body_elsewhere s sk b m))
  | inr (t, e) ↦
      rw (e, restore_table, lookup-insert)
        (ground (arith, same_iff (key_of s) sk, run_body_elsewhere s sk b m))
]

-- A transaction whose function returns an error leaves every table of every scope as it was, and
-- leaves no table where there was none, whatever the function wrote first.
pub run_txn_atomic :
    (s : Scope) (body : TxBody) (m : Memory) {e : Bytes}
    → (run_txn s body m).1 ≡ some e
    → (sk : Bytes) → lookup sk (run_txn s body m).0.table_of ≡ lookup sk m.table_of
unfolding run_txn
run_txn_atomic s body m h sk = elim (Option-cases (run_body s body m).1) [
  | inl e ↦ cc (rw (e, run_txn) at h)
  | inr (x, e) ↦ rw (e, run_txn) (lookup-restore_table s sk body m)
]

-- A transaction, failing or not, changes no scope but its own.
pub run_txn_elsewhere :
    (s : Scope) (sk : Bytes) (body : TxBody) (m : Memory)
    → same (key_of s) sk ≡ false
    → lookup sk (run_txn s body m).0.table_of ≡ lookup sk m.table_of
unfolding run_txn
run_txn_elsewhere s sk body m h = elim (Option-cases (run_body s body m).1) [
  | inl e ↦ rw (e, run_txn) (run_body_elsewhere s sk body m h)
  | inr (x, e) ↦ rw (e, run_txn) (lookup-restore_table s sk body m)
]
