-- ===== src/Hier/Entries.antt =====
-- What an entry of a listing by hierList (internal/engine/tagmatch.go) is.
use mirror_cloud.Common.{
  ℕ, ◌≤◌, ◌≡◌, ◌≢◌, ◌⊎◌, drop-append_length, refl, sym, ap, subst, Bool, true, false, [], ◌∷◌, ◌++◌,
  Option, none, some, arith, Bool-cases, inl, inr, if◌then◌else◌, length,
}
use mirror_cloud.Bytes.{Bytes, has_prefix, is_empty}
use mirror_cloud.Bytes.Parts.{has_prefix-append, append-of-has_prefix}
use mirror_cloud.Hier.{up_to_first, entry_of}

-- The text up to and including the delimiter where it stands first, or none where it stands
-- nowhere.
abbrev pub Upto : Bytes → Bytes → Option Bytes → Type 0
Upto delim s none = (before after : Bytes) → s ≢ before ++ (delim ++ after)
Upto delim s (some head) =
    (first : Bytes) × (rest : Bytes) × (s ≡ first ++ (delim ++ rest))
    × (head ≡ first ++ delim)
    × ((before after : Bytes) → s ≡ before ++ (delim ++ after) → length first ≤ length before)

here : (delim s : Bytes) → has_prefix delim s ≡ true → Upto delim s (some delim)
here delim s h =
    let (rest, e) = append-of-has_prefix delim s h in
    ([], rest, e, refl, λ before after f. omega arith)

not_here : (delim s after : Bytes) → has_prefix delim s ≡ false → s ≢ delim ++ after
not_here delim s after h e = cc (h, ap (has_prefix delim) e, has_prefix-append delim after)

tails : (c d : ℕ) (s t : Bytes) → ◌≡◌ {A = Bytes} (c ∷ s) (d ∷ t) → s ≡ t
tails c d s t e = cc

abbrev longer : ℕ → Option Bytes → Option Bytes
longer c none = none
longer c (some head) = some (c ∷ head)

further :
    (delim : Bytes) (c : ℕ) (s : Bytes) (o : Option Bytes)
    → has_prefix delim (c ∷ s) ≡ false
    → Upto delim s o
    → Upto delim (c ∷ s) (longer c o)
further delim c s none h u = at_none
  where
    at_none : (before after : Bytes) → c ∷ s ≢ before ++ (delim ++ after)
    at_none [] after e = not_here delim (c ∷ s) after h e
    at_none (d ∷ before) after e = u before after (tails c d s (before ++ (delim ++ after)) e)
further delim c s (some head) h (first, rest, e, f, least) =
    (c ∷ first, rest, ap (λ k. c ∷ k) e, ap (λ k. c ∷ k) f, at_some)
  where
    at_some :
        (before after : Bytes)
        → c ∷ s ≡ before ++ (delim ++ after)
        → length (c ∷ first) ≤ length before
    at_some [] after g = absurd (not_here delim (c ∷ s) after h g)
    at_some (d ∷ before) after g =
        omega (arith, least before after (tails c d s (before ++ (delim ++ after)) g))

Upto-if :
    (delim s : Bytes) (b : Bool) (o q : Option Bytes)
    → (b ≡ true → Upto delim s o)
    → (b ≡ false → Upto delim s q)
    → Upto delim s (if b then o else q)
Upto-if delim s true o q h k = h refl
Upto-if delim s false o q h k = k refl

none_at_end : (delim : Bytes) → has_prefix delim [] ≡ false → Upto delim [] none
none_at_end delim h = at_end
  where
    at_end : (before after : Bytes) → [] ≢ before ++ (delim ++ after)
    at_end [] after e = not_here delim [] after h e
    at_end (d ∷ before) after e = cc

up_to_first-Upto : (delim s : Bytes) → Upto delim s (up_to_first delim s)
unfolding up_to_first
up_to_first-Upto delim [] =
    Upto-if delim [] (has_prefix delim []) (some delim) none (here delim []) (none_at_end delim)
up_to_first-Upto delim (c ∷ s) =
    Upto-if delim (c ∷ s) (has_prefix delim (c ∷ s)) (some delim) _ (here delim (c ∷ s))
      (λ h. further delim c s (up_to_first delim s) h (up_to_first-Upto delim s))

-- The entry of a name: the name begins with the prefix. Where a delimiter is asked for and stands
-- behind the prefix, the entry ends with it where it stands there first; otherwise it is the name.
abbrev pub Ending : Bytes → Bytes → Bytes → Bytes → Type 0
Ending prefix delim rest entry =
    ((entry ≡ prefix ++ rest)
      × ((is_empty delim ≡ true) ⊎ ((before after : Bytes) → rest ≢ before ++ (delim ++ after))))
    ⊎ ((is_empty delim ≡ false)
        × ((first : Bytes) × (after : Bytes) × (rest ≡ first ++ (delim ++ after))
            × (entry ≡ prefix ++ (first ++ delim))
            × ((b a : Bytes) → rest ≡ b ++ (delim ++ a) → length first ≤ length b)))

pub record IsEntryOf (prefix delim name entry : Bytes) : Type 0 where
  pub rest : Bytes
  pub under : name ≡ prefix ++ rest
  pub ending : Ending prefix delim rest entry

Ending-by :
    (prefix delim rest : Bytes) (o : Option Bytes)
    → is_empty delim ≡ false
    → Upto delim rest o
    → Ending prefix delim rest (elim o [ none ↦ prefix ++ rest | some head ↦ prefix ++ head ])
Ending-by prefix delim rest none h u = inl (refl, inr u)
Ending-by prefix delim rest (some head) h (first, after, e, f, least) =
    inr (h, (first, after, e, ap (λ k. prefix ++ k) f, least))

entry_of-append :
    (prefix delim rest : Bytes)
    → is_empty delim ≡ false
    → entry_of prefix delim (prefix ++ rest)
      ≡ elim (up_to_first delim rest) [ none ↦ prefix ++ rest | some head ↦ prefix ++ head ]
unfolding entry_of
entry_of-append prefix delim rest h = rw (h, drop-append_length prefix rest) refl

entry_of_whole :
    (prefix delim name : Bytes) → is_empty delim ≡ true → entry_of prefix delim name ≡ name
unfolding entry_of
entry_of_whole prefix delim name h = rw h refl

Ending-of :
    (prefix delim rest : Bytes) → Ending prefix delim rest (entry_of prefix delim (prefix ++ rest))
Ending-of prefix delim rest = elim (Bool-cases (is_empty delim)) [
  | inl t ↦ inl (entry_of_whole prefix delim (prefix ++ rest) t, inl t)
  | inr f ↦
      subst (Ending prefix delim rest) (sym (entry_of-append prefix delim rest f))
        (Ending-by prefix delim rest (up_to_first delim rest) f (up_to_first-Upto delim rest))
]

pub entry_of-IsEntryOf :
    (prefix delim name : Bytes)
    → has_prefix prefix name ≡ true
    → IsEntryOf prefix delim name (entry_of prefix delim name)
entry_of-IsEntryOf prefix delim name h =
    let (rest, e) = append-of-has_prefix prefix name h in
    record {
      rest = rest;
      under = e;
      ending =
          subst (λ (n : Bytes). Ending prefix delim rest (entry_of prefix delim n)) (sym e)
            (Ending-of prefix delim rest);
    }
