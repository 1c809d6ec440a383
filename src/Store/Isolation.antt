-- ===== src/Store/Isolation.antt =====
-- What a read of the store answers after a write (internal/store/store.go): collections do not
-- leak into one another when their accounts and names hold no separator byte.
use mirror_cloud.Common.{
  ◌≡◌, ap, sym, ◌∙◌, Bool, false, ◌&&◌, [], none, some, or_else, if◌then◌else◌, arith, Bool-cases,
  inl, inr,
}
use mirror_cloud.Bytes.{Bytes, same, same_iff, same_self, has_byte}
use mirror_cloud.Bytes.Parts.{same-join}
use mirror_cloud.GoMap.{lookup, insert, remove, lookup-insert, lookup-remove, remove-nil}
use mirror_cloud.Store.{Memory, Coll, sep, scope_key, key_of, full, table, get, ensure, put, delete}

-- No separator byte.
abbrev pub IsSepFree : Bytes → Type 0
IsSepFree s = has_byte sep s ≡ false

pub record IsPlain (c : Coll) : Type 0 where
  pub account : IsSepFree c.scope.account
  pub name : IsSepFree c.name

pub lookup-put_scope :
    (c : Coll) (key val sk : Bytes) (m : Memory)
    → same (key_of c.scope) sk ≡ false
    → lookup sk (put c key val m).table_of ≡ lookup sk m.table_of
unfolding put
lookup-put_scope c key val sk m h = ground (
  arith,
  lookup-insert (key_of c.scope) sk [] m.table_of,
  lookup-insert (key_of c.scope) sk
      (insert (full c.name key) val (table (key_of c.scope) (ensure (key_of c.scope) m)))
      (ensure (key_of c.scope) m).table_of,
)

pub table-put_self :
    (c : Coll) (key val : Bytes) (m : Memory)
    → table (key_of c.scope) (put c key val m)
      ≡ insert (full c.name key) val (table (key_of c.scope) m)
unfolding put
table-put_self c key val m = ground (
  arith,
  same_self (key_of c.scope),
  lookup-insert (key_of c.scope) (key_of c.scope) [] m.table_of,
  lookup-insert (key_of c.scope) (key_of c.scope)
      (insert (full c.name key) val (table (key_of c.scope) (ensure (key_of c.scope) m)))
      (ensure (key_of c.scope) m).table_of,
)

pub lookup-delete_scope :
    (c : Coll) (key sk : Bytes) (m : Memory)
    → same (key_of c.scope) sk ≡ false
    → lookup sk (delete c key m).table_of ≡ lookup sk m.table_of
unfolding delete table
lookup-delete_scope c key sk m h = ground (
  arith,
  lookup-insert (key_of c.scope) sk (remove (full c.name key) (table (key_of c.scope) m))
      m.table_of,
)

pub table-delete_self :
    (c : Coll) (key : Bytes) (m : Memory)
    → table (key_of c.scope) (delete c key m) ≡ remove (full c.name key) (table (key_of c.scope) m)
unfolding delete table
table-delete_self c key m = ground (
  arith,
  same_self (key_of c.scope),
  remove-nil {V = Bytes} (full c.name key),
  lookup-insert (key_of c.scope) (key_of c.scope)
      (remove (full c.name key) (table (key_of c.scope) m)) m.table_of,
)

-- Whether two addresses, each a collection and a key, are the same.
abbrev pub same_entry : Coll → Bytes → Coll → Bytes → Bool
same_entry c k d j =
    (same c.scope.account d.scope.account && same c.scope.region d.scope.region)
    && (same c.name d.name && same k j)

module _ {c d : Coll} (pc : IsPlain c) (pd : IsPlain d) where
  same-key_of :
      same (key_of c.scope) (key_of d.scope)
      ≡ (same c.scope.account d.scope.account && same c.scope.region d.scope.region)
  unfolding scope_key
  same-key_of =
      same-join sep c.scope.account c.scope.region d.scope.account d.scope.region pc.account
        pd.account

  same-full :
      (k j : Bytes) → same (full c.name k) (full d.name j) ≡ (same c.name d.name && same k j)
  unfolding full
  same-full k j = same-join sep c.name k d.name j pc.name pd.name

  -- For collections whose account and name hold no separator byte, a read after a write answers the
  -- value written exactly at the address written, and elsewhere what it answered before.
  pub get-put :
      (k j v : Bytes) (m : Memory)
      → get d j (put c k v m) ≡ (if same_entry c k d j then some v else get d j m)
  unfolding get
  get-put k j v m = elim (Bool-cases (same (key_of c.scope) (key_of d.scope))) [
    | inl e ↦
        let same_key : key_of c.scope ≡ key_of d.scope =
          (same_iff (key_of c.scope) (key_of d.scope)).0 e in
        rw (sym same_key, table-put_self c k v m, lookup-insert, same-full k j, sym same-key_of ∙ e)
    | inr e ↦ rw (sym same-key_of ∙ e) (
        ap (λ t. lookup (full d.name j) (or_else [] t))
          (lookup-put_scope c k v (key_of d.scope) m e))
  ]

  -- For collections whose account and name hold no separator byte, a read after a delete finds
  -- nothing exactly at the address deleted, and elsewhere what it answered before.
  pub get-delete :
      (k j : Bytes) (m : Memory)
      → get d j (delete c k m) ≡ (if same_entry c k d j then none else get d j m)
  unfolding get
  get-delete k j m = elim (Bool-cases (same (key_of c.scope) (key_of d.scope))) [
    | inl e ↦
        let same_key : key_of c.scope ≡ key_of d.scope =
          (same_iff (key_of c.scope) (key_of d.scope)).0 e in
        rw
          (sym same_key, table-delete_self c k m, lookup-remove, same-full k j, sym same-key_of ∙ e)
    | inr e ↦ rw (sym same-key_of ∙ e) (
        ap (λ t. lookup (full d.name j) (or_else [] t))
          (lookup-delete_scope c k (key_of d.scope) m e))
  ]
