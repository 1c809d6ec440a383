-- ===== src/Store/Contract.antt =====
-- The contract that internal/spi/spi.go states of `Collection.List`, and that the store meets it.
use mirror_cloud.Common.{
  suc, ◌≡◌, ◌≤◌, ◌<◌, ◌⊎◌, refl, ap, Bool, true, false, ◌&&◌, [], ◌∷◌, map, List, Option, some,
  arith, Bool-cases, inl, inr, is_some, All, length, take, ltb, if◌then◌else◌, length-take, ltb-lt,
}
use mirror_cloud.Common.Int.{ℤ, up}
use mirror_cloud.Bytes.{Bytes, same_self, has_prefix}
use mirror_cloud.Bytes.Sort.{has, IsAscending}
use mirror_cloud.Bytes.Sort.Front.{
  Below, take-IsAscending, has_of_has-take, has-take-or-Below, beyond-take,
}
use mirror_cloud.Store.{Memory, Coll, Kv, get, entry_at, list_locked}
use mirror_cloud.Store.Invariant.{IsWellFormed}
use mirror_cloud.Store.Listing.{beyond, found_keys, has-found_keys, found_keys-IsAscending}

abbrev pub keys_shown : List Kv → List Bytes
keys_shown [] = []
keys_shown (kv ∷ kvs) = kv.key ∷ keys_shown kvs

-- An entry that a listing is asked for, by what a read of its key answers.
pub record IsAsked (view : Bytes → Option Bytes) (prefix after k : Bytes) : Type 0 where
  pub present : is_some (view k) ≡ true
  pub prefixed : has_prefix prefix k ≡ true
  pub later : beyond after k ≡ true

-- "List returns entries with the given key prefix in lexicographic order, starting strictly after
-- `after`, up to limit entries. limit <= 0 means no limit. The bool reports whether more entries
-- remain."
pub record IsListing (view : Bytes → Option Bytes) (prefix after : Bytes) (limit : ℤ)
    (shown : List Kv) (more : Bool) : Type 0 where
  pub ascending : IsAscending (keys_shown shown)
  pub values : All (λ kv. view kv.key ≡ some kv.value) shown
  pub asked : (k : Bytes) → has k (keys_shown shown) ≡ true → IsAsked view prefix after k
  pub front :
      (k : Bytes)
      → IsAsked view prefix after k
      → (has k (keys_shown shown) ≡ true) ⊎ ((more ≡ true) × Below k (keys_shown shown))
  pub no_limit : up limit ≡ 0 → more ≡ false
  pub bounded : 0 < up limit → length shown ≤ up limit
  pub remain :
      more ≡ true → (k : Bytes) × (IsAsked view prefix after k) × (has k (keys_shown shown) ≡ false)

pub keys_shown-map :
    (c : Coll) (m : Memory) (ks : List Bytes) → keys_shown (map (entry_at c m) ks) ≡ ks
unfolding entry_at
keys_shown-map c m [] = refl
keys_shown-map c m (k ∷ ks) = ap (λ l. k ∷ l) (keys_shown-map c m ks)

length-map_entry :
    (c : Coll) (m : Memory) (ks : List Bytes) → length (map (entry_at c m) ks) ≡ length ks
length-map_entry c m [] = refl
length-map_entry c m (k ∷ ks) = ap suc (length-map_entry c m ks)

-- The keys shown, of those found.
unfoldable pub cut_keys : ℤ → List Bytes → List Bytes
cut_keys limit found =
    if ltb 0 (up limit) && ltb (up limit) (length found) then take (up limit) found else found

module _ (c : Coll) (prefix after : Bytes) (limit : ℤ) (m : Memory) where
  more-list_locked :
      (list_locked c prefix after limit m).1
      ≡ (ltb 0 (up limit) && ltb (up limit) (length (found_keys c prefix after m)))
  unfolding list_locked found_keys
  more-list_locked = refl

  pub shown-list_locked :
      (list_locked c prefix after limit m).0
      ≡ map (entry_at c m) (cut_keys limit (found_keys c prefix after m))
  unfolding list_locked found_keys cut_keys
  shown-list_locked = refl

  pub found_keys-IsAsked :
      (k : Bytes)
      → has k (found_keys c prefix after m) ≡ true
      → IsAsked (λ j. get c j m) prefix after k
  found_keys-IsAsked k h =
      let e = has-found_keys c prefix after k m in
      record { present = ground arith; prefixed = ground arith; later = ground arith }

  found_of_asked :
      (k : Bytes)
      → IsAsked (λ j. get c j m) prefix after k
      → has k (found_keys c prefix after m) ≡ true
  found_of_asked k a = rw (has-found_keys c prefix after k m, a.present, a.prefixed, a.later)

entry-get :
    (c : Coll) (m : Memory) (k : Bytes)
    → is_some (get c k m) ≡ true
    → get c k m ≡ some (entry_at c m k).value
unfolding get entry_at
entry-get c m k h = ground arith

values_of_present :
    (c : Coll) (m : Memory) (ks : List Bytes)
    → ((k : Bytes) → has k ks ≡ true → is_some (get c k m) ≡ true)
    → All (λ kv. get c kv.key m ≡ some kv.value) (map (entry_at c m) ks)
unfolding has entry_at
values_of_present c m [] h = tt
values_of_present c m (k ∷ ks) h =
    (entry-get c m k (h k (rw (same_self k))), values_of_present c m ks (λ j i. h j (ground arith)))

cut_keys-front :
    (limit : ℤ) (found : List Bytes) (k : Bytes)
    → IsAscending found
    → has k found ≡ true
    → (has k (cut_keys limit found) ≡ true)
      ⊎ (((ltb 0 (up limit) && ltb (up limit) (length found)) ≡ true)
          × Below k (cut_keys limit found))
unfolding cut_keys
cut_keys-front limit found k a h =
    elim (Bool-cases (ltb 0 (up limit) && ltb (up limit) (length found))) [
      | inr e ↦ inl (rw e h)
      | inl e ↦ elim (has-take-or-Below k (up limit) found a h) [
        | inl i ↦ inl (rw e i)
        | inr b ↦ inr (e, rw e b)
      ]
    ]

cut_keys-IsAscending :
    (limit : ℤ) (found : List Bytes) → IsAscending found → IsAscending (cut_keys limit found)
unfolding cut_keys
cut_keys-IsAscending limit found a =
    elim (Bool-cases (ltb 0 (up limit) && ltb (up limit) (length found))) [
      | inr e ↦ rw e a
      | inl e ↦ rw e (take-IsAscending (up limit) found a)
    ]

found_of_cut :
    (limit : ℤ) (found : List Bytes) (k : Bytes)
    → has k (cut_keys limit found) ≡ true
    → has k found ≡ true
unfolding cut_keys
found_of_cut limit found k h = ground (arith, has_of_has-take k (up limit) found)

cut_keys-bounded :
    (limit : ℤ) (found : List Bytes) → 0 < up limit → length (cut_keys limit found) ≤ up limit
unfolding cut_keys
cut_keys-bounded limit found h = ground (arith, length-take (up limit) found)

cut_keys-remain :
    (limit : ℤ) (found : List Bytes)
    → IsAscending found
    → (ltb 0 (up limit) && ltb (up limit) (length found)) ≡ true
    → (k : Bytes) × (has k found ≡ true) × (has k (cut_keys limit found) ≡ false)
unfolding cut_keys
cut_keys-remain limit found a e = rw e (beyond-take (up limit) found a (ltb-lt _ _ (ground arith)))

-- In a well-formed store a listing meets the contract of `Collection.List`: the entries shown are
-- the asked ones from the first on, ascending and each once, with the values that reads answer; a
-- positive limit bounds them, and `more` is true exactly if some asked entry is not shown.
pub list_locked-IsListing :
    (c : Coll) (prefix after : Bytes) (limit : ℤ) {m : Memory}
    → IsWellFormed m
    → IsListing
        (λ k. get c k m)
        prefix
        after
        limit
        (list_locked c prefix after limit m).0
        (list_locked c prefix after limit m).1
list_locked-IsListing c prefix after limit {m} w =
    let found = found_keys c prefix after m in
    let shown = cut_keys limit found in
    let up_to : IsAscending found = found_keys-IsAscending c prefix after w in
    rw (shown-list_locked c prefix after limit m, more-list_locked c prefix after limit m)
      (record {
        ascending = rw (keys_shown-map c m shown) (cut_keys-IsAscending limit found up_to);
        values = values_of_present c m shown λ k h.
            (found_keys-IsAsked c prefix after limit m k (found_of_cut limit found k h)).present;
        asked = λ k h.
            found_keys-IsAsked c prefix after limit m k
              (found_of_cut limit found k (rw (keys_shown-map c m shown) at h));
        front = λ k a.
            rw (keys_shown-map c m shown)
              (cut_keys-front limit found k up_to (found_of_asked c prefix after limit m k a));
        no_limit = λ z. ground arith;
        bounded = λ h. rw (length-map_entry c m shown) (cut_keys-bounded limit found h);
        remain = λ e.
            let (k, i, o) = cut_keys-remain limit found up_to e in
            (k, found_keys-IsAsked c prefix after limit m k i, rw (keys_shown-map c m shown) o);
      })
