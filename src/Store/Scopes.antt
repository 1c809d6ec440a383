-- ===== src/Store/Scopes.antt =====
-- `Memory.Scopes` (internal/store/store.go) lists the scopes that have a table.
use mirror_cloud.Common.{◌≡◌, refl, sym, ◌∙◌, true, List, [], ◌∷◌, map, arith, is_some}
use mirror_cloud.Bytes.{Bytes, same_self, has_byte}
use mirror_cloud.Bytes.Parts.{append-cut}
use mirror_cloud.Bytes.Sort.{
  has, IsAscending, sort_strings, has-sort_strings, sort_strings-IsAscending,
}
use mirror_cloud.GoMap.{lookup}
use mirror_cloud.GoMap.Keys.{keys, has-keys}
use mirror_cloud.Store.{Memory, Identity, sep, scope_key, scopes, identity_of}
use mirror_cloud.Store.Invariant.{IsWellFormed}

-- The table keys of the scopes listed.
abbrev pub scope_keys : List Identity → List Bytes
scope_keys [] = []
scope_keys (i ∷ is) = scope_key i.account i.region ∷ scope_keys is

scope_keys-identity_of :
    (ks : List Bytes)
    → ((k : Bytes) → has k ks ≡ true → has_byte sep k ≡ true)
    → scope_keys (map identity_of ks) ≡ ks
unfolding has identity_of scope_key
scope_keys-identity_of [] h = refl
scope_keys-identity_of (k ∷ ks) h = cc (
  append-cut sep k (h k (rw (same_self k))),
  scope_keys-identity_of ks (λ j i. h j (ground arith)),
)

joined_of_sorted :
    {m : Memory}
    → IsWellFormed m
    → (k : Bytes) → has k (sort_strings (keys m.table_of)) ≡ true
    → has_byte sep k ≡ true
joined_of_sorted {m} w k h =
    w.joined k (sym (has-keys k m.table_of) ∙ sym (has-sort_strings k (keys m.table_of)) ∙ h)

scope_keys-scopes :
    {m : Memory} → IsWellFormed m → scope_keys (scopes m) ≡ sort_strings (keys m.table_of)
unfolding scopes
scope_keys-scopes {m} w =
    scope_keys-identity_of (sort_strings (keys m.table_of)) (joined_of_sorted w)

-- In a well-formed store the scopes listed, joined again, are ascending, each once, and exactly the
-- keys that have a table.
pub scopes_exact :
    {m : Memory}
    → IsWellFormed m
    → IsAscending (scope_keys (scopes m))
      × ((k : Bytes) → has k (scope_keys (scopes m)) ≡ is_some (lookup k m.table_of))
scopes_exact {m} w = rw (scope_keys-scopes w) (
  sort_strings-IsAscending (keys m.table_of) w.scopes_once,
  λ k. has-sort_strings k (keys m.table_of) ∙ has-keys k m.table_of,
)
