-- ===== src/Statechart/Alias.antt =====
-- resolveKeyAlias of internal/engine/statechart.go, on the collection that holds the aliases.
use mirror_cloud.Common.{
  ℕ, ◌≢◌, is_some, zero, suc, ◌≡◌, ◌⊎◌, ◌<◌, refl, sym, ap, ◌∙◌, true, false, List, [], ◌∷◌, Option,
  none, some, arith, length, Bool-cases, Option-cases, inl, inr,
}
use mirror_cloud.Bytes.{Bytes, same, same_iff}
use mirror_cloud.Bytes.Sort.{has}
use mirror_cloud.GoMap.{GoMap, lookup, remove, lookup-remove, length-remove}

-- The key that a key is an alias of, where there is one that is not empty.
unfoldable pub alias_of : GoMap Bytes → Bytes → Option Bytes
alias_of aliases key = elim (lookup key aliases) [
  | none ↦ none
  | some [] ↦ none
  | some (c ∷ next) ↦ some (c ∷ next)
]

-- The loop, for a number of turns.
unfoldable pub alias_loop : ℕ → GoMap Bytes → List Bytes → Bytes → Bytes
unfolding alias_of has
alias_loop zero aliases seen key = key
alias_loop (suc fuel) aliases seen key = elim (has key seen) [
  | true ↦ key
  | false ↦ elim (alias_of aliases key) [
    | none ↦ key
    | some next ↦ alias_loop fuel aliases (key ∷ seen) next
  ]
]

-- resolveKeyAlias, where the resource has aliases; each turn sees another of them.
unfoldable pub resolve_key_alias : GoMap Bytes → Bytes → Bytes
unfolding alias_loop
resolve_key_alias aliases [] = []
resolve_key_alias aliases (c ∷ key) = alias_loop (suc (length aliases)) aliases [] (c ∷ key)

-- Aliases lead from one key to another, in any number of steps.
pub data Chain (aliases : GoMap Bytes) : Bytes → Bytes → Type 0 where
  here : {key : Bytes} → Chain aliases key key
  onward :
      {key next last : Bytes}
      → alias_of aliases key ≡ some next
      → Chain aliases next last
      → Chain aliases key last

pub Chain-trans :
    {aliases : GoMap Bytes} {a b c : Bytes}
    → Chain aliases a b
    → Chain aliases b c
    → Chain aliases a c
Chain-trans here q = q
Chain-trans (onward e p) q = onward e (Chain-trans p q)

-- The key has no alias, or aliases lead from it back to it.
abbrev pub IsResolved : GoMap Bytes → Bytes → Type 0
IsResolved aliases key =
    (alias_of aliases key ≡ none)
    ⊎ ((next : Bytes) × (alias_of aliases key ≡ some next) × Chain aliases next key)

-- From every key seen aliases lead to the current one.
abbrev Led : GoMap Bytes → List Bytes → Bytes → Type 0
Led aliases seen key =
    (k : Bytes)
    → has k seen ≡ true
    → (next : Bytes) × (alias_of aliases k ≡ some next) × Chain aliases next key

Led-next :
    (aliases : GoMap Bytes) (seen : List Bytes) (key next : Bytes)
    → Led aliases seen key
    → alias_of aliases key ≡ some next
    → Led aliases (key ∷ seen) next
Led-next aliases seen key next l e k h = elim (Bool-cases (same key k)) [
  | inl t ↦
      let q : key ≡ k = (same_iff key k).0 t in (next, ap (alias_of aliases) (sym q) ∙ e, here)
  | inr f ↦
      let (n, a, p) = l k (unfold has in ground arith) in (n, a, Chain-trans p (onward e here))
]

-- What is left of the aliases once those of the keys seen are taken out.
abbrev Left : GoMap Bytes → List Bytes → GoMap Bytes → Type 0
Left aliases seen rest = (k : Bytes) → has k seen ≡ false → lookup k rest ≡ lookup k aliases

Left-remove :
    (aliases rest : GoMap Bytes) (seen : List Bytes) (key : Bytes)
    → Left aliases seen rest
    → Left aliases (key ∷ seen) (remove key rest)
unfolding has
Left-remove aliases rest seen key l k h = ground (arith, lookup-remove key k rest, l k)

alias_of-lookup :
    (aliases : GoMap Bytes) (key next : Bytes)
    → alias_of aliases key ≡ some next
    → is_some (lookup key aliases) ≡ true
unfolding alias_of
alias_of-lookup aliases key next h = elim (Option-cases (lookup key aliases)) [
  | inl e ↦ absurd (ground arith)
  | inr (v, e) ↦ rw e
]

alias_loop-seen :
    (fuel : ℕ) (aliases : GoMap Bytes) (seen : List Bytes) (key : Bytes)
    → has key seen ≡ true
    → alias_loop (suc fuel) aliases seen key ≡ key
unfolding alias_loop
alias_loop-seen fuel aliases seen key h = rw (h, alias_loop)

alias_loop-end :
    (fuel : ℕ) (aliases : GoMap Bytes) (seen : List Bytes) (key : Bytes)
    → has key seen ≡ false
    → alias_of aliases key ≡ none
    → alias_loop (suc fuel) aliases seen key ≡ key
unfolding alias_loop
alias_loop-end fuel aliases seen key h e = rw (h, e, alias_loop)

alias_loop-next :
    (fuel : ℕ) (aliases : GoMap Bytes) (seen : List Bytes) (key next : Bytes)
    → has key seen ≡ false
    → alias_of aliases key ≡ some next
    → alias_loop (suc fuel) aliases seen key ≡ alias_loop fuel aliases (key ∷ seen) next
unfolding alias_loop
alias_loop-next fuel aliases seen key next h e = rw (h, e, alias_loop)

abbrev Resolves : GoMap Bytes → Bytes → Bytes → Type 0
Resolves aliases key r = Chain aliases key r × IsResolved aliases r

alias_loop-IsResolved :
    (fuel : ℕ) (aliases rest : GoMap Bytes) (seen : List Bytes) (key : Bytes)
    → Led aliases seen key
    → Left aliases seen rest
    → length rest < fuel
    → Resolves aliases key (alias_loop fuel aliases seen key)
alias_loop-IsResolved zero aliases rest seen key led left l = absurd (omega arith)
alias_loop-IsResolved (suc fuel) aliases rest seen key led left l =
    elim (Bool-cases (has key seen)) [
      | inl t ↦ rw (alias_loop-seen fuel aliases seen key t) (here, inr (led key t))
      | inr f ↦ elim (Option-cases (alias_of aliases key)) [
        | inl e ↦ rw (alias_loop-end fuel aliases seen key f e) (here, inl e)
        | inr (next, e) ↦
            let there : is_some (lookup key rest) ≡ true =
              ap is_some (left key f) ∙ alias_of-lookup aliases key next e in
            let (chain, resolved) =
              alias_loop-IsResolved fuel aliases (remove key rest) (key ∷ seen) next
                (Led-next aliases seen key next led e) (Left-remove aliases rest seen key left)
                (omega (arith, length-remove key rest there)) in
            rw (alias_loop-next fuel aliases seen key next f e) (onward e chain, resolved)
      ]
    ]

unseen : (k : Bytes) → has k [] ≡ true → ⊥
unfolding has
unseen k h = cc

-- Resolving a key that is not empty ends within the turns of the model at a key that the aliases
-- lead to, which has no alias or lies on a cycle of aliases.
pub resolve_key_alias-IsResolved :
    (aliases : GoMap Bytes) (key : Bytes)
    → key ≢ []
    → Chain aliases key (resolve_key_alias aliases key)
      × IsResolved aliases (resolve_key_alias aliases key)
unfolding resolve_key_alias
resolve_key_alias-IsResolved aliases [] h = absurd (h refl)
resolve_key_alias-IsResolved aliases (c ∷ key) h =
    alias_loop-IsResolved (suc (length aliases)) aliases aliases [] (c ∷ key)
      (λ k z. absurd (unseen k z)) (λ k z. refl) (omega arith)
