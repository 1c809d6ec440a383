-- ===== src/Store/Listing.antt =====
-- The contract of `Collection.List` (internal/spi/spi.go) and its proof for the store
-- (internal/store/store.go).
use mathlib.Core.List.{append_assoc}
use mirror_cloud.Common.{
  ◌≡◌, sym, ap, ◌∙◌, Bool, true, ◌&&◌, ◌||◌, [], ◌∷◌, ◌++◌, List, arith, Bool-cases, inl, inr,
  is_some,
}
use mirror_cloud.Bytes.{Bytes, same, same_iff, has_prefix, trim_prefix, is_empty, less}
use mirror_cloud.Bytes.Parts.{
  has_prefix-append_cancel, append-of-has_prefix, trim_prefix-append, same-append_left,
}
use mirror_cloud.Bytes.Sort.{
  has, IsDistinct, IsAscending, sort_strings, has-sort_strings, sort_strings-IsAscending,
}
use mirror_cloud.GoMap.{GoMap}
use mirror_cloud.GoMap.Keys.{keys, has-keys}
use mirror_cloud.Store.{Memory, Coll, sep, key_of, full, table, get, matching}
use mirror_cloud.Store.Invariant.{IsWellFormed}

-- Strictly after the cursor; the empty cursor is before every key.
abbrev pub beyond : Bytes → Bytes → Bool
beyond after k = is_empty after || less after k

-- What a full name says of the key under it.
module _ (name : Bytes) where
  has_prefix-full : (p k : Bytes) → has_prefix (full name p) (full name k) ≡ has_prefix p k
  unfolding full has_prefix
  has_prefix-full p k = ground (arith, has_prefix-append_cancel name (sep ∷ p) (sep ∷ k))

  trim_full : (k : Bytes) → trim_prefix (name ++ sep ∷ []) (full name k) ≡ k
  unfolding full
  trim_full k =
      ap (trim_prefix (name ++ sep ∷ [])) (sym (append_assoc name (sep ∷ []) k))
      ∙ trim_prefix-append (name ++ sep ∷ []) k

  -- A key of the table that has a full prefix is the full name of some key.
  full_of_has_prefix :
      (p k : Bytes) → has_prefix (full name p) k ≡ true → (j : Bytes) × (k ≡ full name j)
  unfolding full
  full_of_has_prefix p k h =
      let (rest, e) = append-of-has_prefix (name ++ sep ∷ p) k h in
      (p ++ rest, e ∙ append_assoc name (sep ∷ p) rest)

  same-full_key : (j k : Bytes) → same (full name j) (full name k) ≡ same j k
  unfolding full same
  same-full_key j k = same-append_left name (sep ∷ j) (sep ∷ k) ∙ ground arith

  has-matching_step :
      (p after k i j v : Bytes) (t : GoMap Bytes)
      → i ≡ full name j
      → has k (matching name (full name p) after t)
        ≡ (has_prefix p k && beyond after k && has (full name k) (keys t))
      → has k (matching name (full name p) after ((i, v) ∷ t))
        ≡ (has_prefix p k && beyond after k && has (full name k) (keys ((i, v) ∷ t)))
  unfolding has matching
  has-matching_step p after k i j v t e ih =
      rw (e, trim_full j, has_prefix-full p j, same-full_key j k) (ground (arith, same_iff j k))

  has-matching :
      (p after k : Bytes) (t : GoMap Bytes)
      → has k (matching name (full name p) after t)
        ≡ (has_prefix p k && beyond after k && has (full name k) (keys t))
  unfolding has matching
  has-matching p after k [] = ground arith
  has-matching p after k ((i, v) ∷ t) = elim (Bool-cases (has_prefix (full name p) i)) [
    | inl e ↦
        let (j, q) = full_of_has_prefix p i e in
        has-matching_step p after k i j v t q (has-matching p after k t)
    | inr e ↦
        rw e
          (ground (arith, has-matching p after k t, has_prefix-full p k, same_iff i (full name k)))
  ]

matching-IsDistinct :
    (name p after : Bytes) (t : GoMap Bytes)
    → IsDistinct (keys t)
    → IsDistinct (matching name (full name p) after t)
unfolding matching
matching-IsDistinct name p after [] d = tt
matching-IsDistinct name p after ((i, v) ∷ t) d = elim (Bool-cases (has_prefix (full name p) i)) [
  | inr e ↦ rw e (matching-IsDistinct name p after t d.1)
  | inl e ↦
      let (j, q) = full_of_has_prefix name p i e in
      elim (Bool-cases (beyond after (trim_prefix (name ++ sep ∷ []) i))) [
        | inr b ↦ rw (e, b) (matching-IsDistinct name p after t d.1)
        | inl b ↦
            rw (e, b)
              (
                rw (q, trim_full name j)
                    (ground
                      (arith, has-matching name p after j t, ap (λ k. has k (keys t)) q, d.0)),
                matching-IsDistinct name p after t d.1,
              )
      ]
]

-- The keys that a listing finds, before the limit cuts them.
unfoldable pub found_keys : Coll → Bytes → Bytes → Memory → List Bytes
unfolding matching
found_keys c prefix after m =
    sort_strings (matching c.name (full c.name prefix) after (table (key_of c.scope) m))

pub has-found_keys :
    (c : Coll) (prefix after k : Bytes) (m : Memory)
    → has k (found_keys c prefix after m)
      ≡ (has_prefix prefix k && beyond after k && is_some (get c k m))
unfolding found_keys get
has-found_keys c prefix after k m =
    has-sort_strings k _
    ∙ has-matching c.name prefix after k (table (key_of c.scope) m)
    ∙ ap (λ b. has_prefix prefix k && beyond after k && b)
        (has-keys (full c.name k) (table (key_of c.scope) m))

pub found_keys-IsAscending :
    (c : Coll) (prefix after : Bytes) {m : Memory}
    → IsWellFormed m
    → IsAscending (found_keys c prefix after m)
unfolding found_keys
found_keys-IsAscending c prefix after {m} w = sort_strings-IsAscending _ (
    matching-IsDistinct c.name prefix after (table (key_of c.scope) m)
      (w.keys_once (key_of c.scope)))
