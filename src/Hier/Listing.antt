-- ===== src/Hier/Listing.antt =====
-- What hierList (internal/engine/tagmatch.go) lists.
use mirror_cloud.Common.{
  ◌≡◌, refl, sym, subst, ◌∙◌, true, false, not, ◌&&◌, ◌||◌, List, [], ◌∷◌, arith, Bool-cases, inl,
  inr, if◌then◌else◌, map, keep_if,
}
use mirror_cloud.Bytes.{Bytes, has_prefix, same, same_iff, same_self}
use mirror_cloud.Bytes.Sort.{
  has, IsDistinct, IsAscending, has-sort_strings, sort_strings-IsAscending,
}
use mirror_cloud.Hier.{entry_of, hier_loop, hier_list}
use mirror_cloud.Hier.Entries.{IsEntryOf, entry_of-IsEntryOf}

-- The entries of the names under the prefix, in their order and as often as they come.
unfoldable entries : Bytes → Bytes → List Bytes → List Bytes
entries prefix delim names = map (entry_of prefix delim) (keep_if (has_prefix prefix) names)

entries-cons :
    (prefix delim n : Bytes) (names : List Bytes)
    → entries prefix delim (n ∷ names) ≡ (
        if has_prefix prefix n
        then entry_of prefix delim n ∷ entries prefix delim names
        else entries prefix delim names)
unfolding entries
entries-cons prefix delim n names = ground arith

has-nil : (k : Bytes) → has k [] ≡ false
unfolding has
has-nil k = refl

has-cons : (k j : Bytes) (js : List Bytes) → has k (j ∷ js) ≡ (same j k || has k js)
unfolding has
has-cons k j js = refl

hier_loop-cons :
    (prefix delim : Bytes) (seen : List Bytes) (n : Bytes) (names : List Bytes)
    → hier_loop prefix delim seen (n ∷ names) ≡ (
        if not (has_prefix prefix n)
        then hier_loop prefix delim seen names
        else if has (entry_of prefix delim n) seen
        then hier_loop prefix delim seen names
        else entry_of prefix delim n
          ∷ hier_loop prefix delim (entry_of prefix delim n ∷ seen) names)
unfolding hier_loop
hier_loop-cons prefix delim seen n names = refl

has-hier_loop :
    (prefix delim : Bytes) (seen names : List Bytes) (k : Bytes)
    → has k (hier_loop prefix delim seen names)
      ≡ (has k (entries prefix delim names) && not (has k seen))
has-hier_loop prefix delim seen [] k = unfold hier_loop entries has in refl
has-hier_loop prefix delim seen (n ∷ names) k =
    let entry = entry_of prefix delim n in
    ground (
      arith,
      hier_loop-cons prefix delim seen n names,
      entries-cons prefix delim n names,
      has-hier_loop prefix delim seen names k,
      has-hier_loop prefix delim (entry ∷ seen) names k,
      has-cons k entry (hier_loop prefix delim (entry ∷ seen) names),
      has-cons k entry (entries prefix delim names),
      has-cons k entry seen,
      same_iff entry k,
    )

hier_loop-IsDistinct :
    (prefix delim : Bytes) (seen names : List Bytes)
    → IsDistinct (hier_loop prefix delim seen names)
hier_loop-IsDistinct prefix delim seen [] = unfold hier_loop in tt
hier_loop-IsDistinct prefix delim seen (n ∷ names) =
    let entry = entry_of prefix delim n in
    elim (Bool-cases (has_prefix prefix n)) [
      | inr f ↦ rw (hier_loop-cons, f) (hier_loop-IsDistinct prefix delim seen names)
      | inl t ↦ elim (Bool-cases (has entry seen)) [
        | inl h ↦ rw (hier_loop-cons, t, h) (hier_loop-IsDistinct prefix delim seen names)
        | inr h ↦
            let fresh : has entry (hier_loop prefix delim (entry ∷ seen) names) ≡ false = ground (
              arith,
              has-hier_loop prefix delim (entry ∷ seen) names entry,
              has-cons entry entry seen,
              same_self entry,
            ) in
            rw (hier_loop-cons, t, h)
              (fresh, hier_loop-IsDistinct prefix delim (entry ∷ seen) names)
      ]
    ]

has-hier_list :
    (names : List Bytes) (prefix delim k : Bytes)
    → has k (hier_list names prefix delim) ≡ has k (entries prefix delim names)
unfolding hier_list
has-hier_list names prefix delim k =
    has-sort_strings k (hier_loop prefix delim [] names)
    ∙ ground (arith, has-hier_loop prefix delim [] names k, has-nil k)

hier_list-IsAscending :
    (names : List Bytes) (prefix delim : Bytes) → IsAscending (hier_list names prefix delim)
unfolding hier_list
hier_list-IsAscending names prefix delim =
    sort_strings-IsAscending (hier_loop prefix delim [] names)
      (hier_loop-IsDistinct prefix delim [] names)

abbrev NameOf : Bytes → Bytes → List Bytes → Bytes → Type 0
NameOf prefix delim names k = (n : Bytes) × (has n names ≡ true) × IsEntryOf prefix delim n k

NameOf-cons :
    (prefix delim n k : Bytes) (names : List Bytes)
    → NameOf prefix delim names k
    → NameOf prefix delim (n ∷ names) k
NameOf-cons prefix delim n k names (m, h, e) = (m, ground (arith, has-cons m n names, h), e)

-- Each entry comes of a name.
of_name :
    (prefix delim k : Bytes) (names : List Bytes)
    → has k (entries prefix delim names) ≡ true
    → NameOf prefix delim names k
of_name prefix delim k [] h = absurd (unfold entries has in cc)
of_name prefix delim k (n ∷ names) h = elim (Bool-cases (has_prefix prefix n)) [
  | inr f ↦
      NameOf-cons prefix delim n k names
        (of_name prefix delim k names (ground (arith, entries-cons prefix delim n names, h, f)))
  | inl t ↦ elim (Bool-cases (same (entry_of prefix delim n) k)) [
    | inl e ↦ (
      n,
      ground (arith, has-cons n n names, same_self n),
      subst (IsEntryOf prefix delim n) ((same_iff (entry_of prefix delim n) k).0 e)
          (entry_of-IsEntryOf prefix delim n t),
    )
    | inr e ↦ NameOf-cons prefix delim n k names (
        of_name prefix delim k names (
          ground (
            arith,
            entries-cons prefix delim n names,
            has-cons k (entry_of prefix delim n) (entries prefix delim names),
            h,
            t,
            e,
          )))
  ]
]

-- Each name under the prefix has its entry.
has_entry :
    (prefix delim n : Bytes) (names : List Bytes)
    → has n names ≡ true
    → has_prefix prefix n ≡ true
    → has (entry_of prefix delim n) (entries prefix delim names) ≡ true
has_entry prefix delim n [] h p = absurd (unfold has in cc)
has_entry prefix delim n (m ∷ names) h p = elim (Bool-cases (same m n)) [
  | inl e ↦
      let q = (same_iff m n).0 e in
      ground (
        arith,
        entries-cons prefix delim m names,
        has-cons (entry_of prefix delim n) (entry_of prefix delim m) (entries prefix delim names),
        same_self (entry_of prefix delim n),
        q,
        p,
      )
  | inr e ↦ ground (
    arith,
    has-cons n m names,
    has_entry prefix delim n names,
    entries-cons prefix delim m names,
    has-cons (entry_of prefix delim n) (entry_of prefix delim m) (entries prefix delim names),
    h,
    p,
    e,
  )
]

-- What a listing lists: in ascending order, with nothing twice, entries of names, and an entry of
-- every name under the prefix.
pub record IsListingOf (names : List Bytes) (prefix delim : Bytes) (listed : List Bytes)
    : Type 0 where
  pub ascending : IsAscending listed
  pub of_names :
      (k : Bytes)
      → has k listed ≡ true
      → (n : Bytes) × (has n names ≡ true) × IsEntryOf prefix delim n k
  pub of_all :
      (n : Bytes)
      → has n names ≡ true
      → has_prefix prefix n ≡ true
      → (k : Bytes) × (has k listed ≡ true) × IsEntryOf prefix delim n k

-- A hierarchical listing is strictly ascending, each of its texts is the entry of a name, and each
-- name under the prefix has its entry in it. The entry of a name, which begins with the prefix,
-- ends with the delimiter where it stands first behind the prefix; it is the name itself if the
-- delimiter stands nowhere there or is empty.
pub hier_list_exact :
    (names : List Bytes) (prefix delim : Bytes)
    → IsListingOf names prefix delim (hier_list names prefix delim)
hier_list_exact names prefix delim = record {
  ascending = hier_list-IsAscending names prefix delim;
  of_names = λ k h. of_name prefix delim k names (sym (has-hier_list names prefix delim k) ∙ h);
  of_all = λ n h p. (
    entry_of prefix delim n,
    has-hier_list names prefix delim (entry_of prefix delim n) ∙ has_entry prefix delim n names h p,
    entry_of-IsEntryOf prefix delim n p,
  );
}
