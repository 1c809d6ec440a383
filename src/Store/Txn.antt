-- ===== src/Store/Txn.antt =====
-- Transactions of internal/store/store.go: `coll.Txn` and `scope.Txn` over `runTxn`.
pub mod Atomic
use mirror_cloud.Common.{Bool, List, Option, none, some}
use mirror_cloud.Common.Int.{ℤ}
use mirror_cloud.Bytes.{Bytes}
use mirror_cloud.GoMap.{lookup, insert, remove}
use mirror_cloud.Store.{Memory, Scope, Coll, Kv, key_of, get, put, delete, list_locked}

-- What the function handed to a transaction does: it calls the methods of the `Tx` of a named
-- collection of the scope, its later calls may depend on the answers, and it returns an error or
-- nil. (A `coll.Txn` names one collection throughout.)
pub data TxBody : Type 0 where
  return_nil : TxBody
  return_err : Bytes → TxBody
  tx_get : Bytes → Bytes → (Option Bytes → TxBody) → TxBody
  tx_put : Bytes → Bytes → Bytes → TxBody → TxBody
  tx_delete : Bytes → Bytes → TxBody → TxBody
  tx_list : Bytes → Bytes → Bytes → ℤ → (List Kv × Bool → TxBody) → TxBody

abbrev pub in_scope : Scope → Bytes → Coll
in_scope s name = record { scope = s; name = name }

-- `fn()`: the calls act on the store at once.
unfoldable pub run_body : Scope → TxBody → Memory → Memory × Option Bytes
run_body s return_nil m = (m, none)
run_body s (return_err e) m = (m, some e)
run_body s (tx_get name key k) m = run_body s (k (get (in_scope s name) key m)) m
run_body s (tx_put name key val b) m = run_body s b (put (in_scope s name) key val m)
run_body s (tx_delete name key b) m = run_body s b (delete (in_scope s name) key m)
run_body s (tx_list name prefix after limit k) m =
    run_body s (k (list_locked (in_scope s name) prefix after limit m)) m

-- The store after an error: the table saved before the call, or none if there was none.
restore_table : Scope → Memory → Memory → Memory
restore_table s before after = elim (lookup (key_of s) before.table_of) [
  | some backup ↦ record after { table_of = insert (key_of s) backup after.table_of }
  | none ↦ record after { table_of = remove (key_of s) after.table_of }
]

-- scope.runTxn
unfoldable pub run_txn : Scope → TxBody → Memory → Memory × Option Bytes
unfolding run_body restore_table
run_txn s body m =
    let (after, err) = run_body s body m in
    elim err [ none ↦ (after, none) | some e ↦ (restore_table s m after, some e) ]
