-- ===== src/Store/Resume.antt =====
-- Paging through `Collection.List` (internal/store/store.go) with the last key of each page.
use mathlib.Core.List.{map-append}
use mirror_cloud.Common.{
  take-append-drop, ℕ, ◌≡◌, ◌≢◌, refl, sym, ap, ◌∙◌, subst, true, false, ◌&&◌, [], ◌∷◌, ◌++◌, map,
  List, some, arith, Bool-cases, inl, inr, length, take, drop, ltb, keep_if,
}
use mirror_cloud.Common.Int.{ℤ, pos, up}
use mirror_cloud.Bytes.{Bytes, is_empty, less}
use mirror_cloud.Bytes.Order.{less_trans}
use mirror_cloud.Bytes.Sort.Extent.{
  last?, keep_if-eq-drop, ascending_ext, has-keep_if, keep_if-IsAscending, has-last?,
}
use mirror_cloud.Store.{Memory, Coll, entry_at, list_locked}
use mirror_cloud.Store.Invariant.{IsWellFormed}
use mirror_cloud.Store.Listing.{beyond, found_keys, has-found_keys, found_keys-IsAscending}
use mirror_cloud.Store.Contract.{
  keys_shown, keys_shown-map, cut_keys, shown-list_locked, found_keys-IsAsked,
}

take-length : (xs : List Bytes) → take (length xs) xs ≡ xs
take-length [] = refl
take-length (x ∷ xs) = ap (λ l. x ∷ l) (take-length xs)

cut_keys-eq-take :
    (limit : ℤ) (found : List Bytes) → (n : ℕ) × (cut_keys limit found ≡ take n found)
unfolding cut_keys
cut_keys-eq-take limit found =
    elim (Bool-cases (ltb 0 (up limit) && ltb (up limit) (length found))) [
      | inl e ↦ (up limit, rw e)
      | inr e ↦ (length found, rw e (sym (take-length found)))
    ]

is_empty_of_ne : (k : Bytes) → k ≢ [] → is_empty k ≡ false
is_empty_of_ne [] h = absurd (h refl)
is_empty_of_ne (a ∷ k) h = refl

beyond_trans : (after k x : Bytes) → beyond after k ≡ true → less k x ≡ true → beyond after x ≡ true
beyond_trans after k x h l = ground (arith, less_trans after k x)

-- A later cursor finds what an earlier one finds beyond it.
found_keys-later :
    (c : Coll) (prefix after k : Bytes) {m : Memory}
    → IsWellFormed m
    → k ≢ []
    → beyond after k ≡ true
    → found_keys c prefix k m ≡ keep_if (less k) (found_keys c prefix after m)
found_keys-later c prefix after k {m} w ne b =
    ascending_ext _ _ (found_keys-IsAscending c prefix k w)
      (keep_if-IsAscending (less k) _ (found_keys-IsAscending c prefix after w))
      λ x. ground (
        arith,
        has-found_keys c prefix k x m,
        has-found_keys c prefix after x m,
        has-keep_if (less k) x (found_keys c prefix after m),
        is_empty_of_ne k ne,
        beyond_trans after k x b,
      )

no_limit-shown :
    (c : Coll) (prefix after : Bytes) (m : Memory)
    → (list_locked c prefix after (pos 0) m).0 ≡ map (entry_at c m) (found_keys c prefix after m)
unfolding cut_keys
no_limit-shown c prefix after m = shown-list_locked c prefix after (pos 0) m

-- In a well-formed store, a page, whatever its limit, followed by everything listed after its last
-- key, which must not be empty, is the whole listing.
pub list_locked-resume :
    (c : Coll) (prefix after : Bytes) (limit : ℤ) (k : Bytes) {m : Memory}
    → IsWellFormed m
    → last? (keys_shown (list_locked c prefix after limit m).0) ≡ some k
    → k ≢ []
    → (list_locked c prefix after limit m).0 ++ (list_locked c prefix k (pos 0) m).0
      ≡ (list_locked c prefix after (pos 0) m).0
list_locked-resume c prefix after limit k {m} w last ne =
    let found = found_keys c prefix after m in
    let (n, q) = cut_keys-eq-take limit found in
    let last' : last? (take n found) ≡ some k =
      subst (λ l. last? l ≡ some k) q
        (subst (λ l. last? l ≡ some k) (keys_shown-map c m (cut_keys limit found))
          (subst (λ l. last? (keys_shown l) ≡ some k) (shown-list_locked c prefix after limit m)
            last)) in
    let b : beyond after k ≡ true =
      (found_keys-IsAsked c prefix after limit m k (has-last? k n found last')).later in
    rw
      (
        shown-list_locked c prefix after limit m,
        q,
        no_limit-shown,
        no_limit-shown,
        found_keys-later c prefix after k w ne b,
        keep_if-eq-drop k n found (found_keys-IsAscending c prefix after w) last',
      )
      (sym (map-append (entry_at c m) (take n found) (drop n found))
        ∙ ap (map (entry_at c m)) (take-append-drop n found))
