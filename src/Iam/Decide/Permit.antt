-- ===== src/Iam/Decide/Permit.antt =====
-- What authorize (internal/services/aws/iam/authorizer.go) permits.
use mathlib.Core.List.{Memᴰ}
use mirror_cloud.Common.{
  ◌≡◌, ◌⊎◌, ◌↔◌, refl, ap, Bool, true, not, ◌&&◌, ◌||◌, List, [], ◌∷◌, Option, arith, Bool-cases,
  inl, inr,
}
use mirror_cloud.Bytes.{Bytes, codes}
use mirror_cloud.Json.{Members}
use mirror_cloud.Float.{F64}
use mirror_cloud.Iam.Policy.{any_of, statements}
use mirror_cloud.Iam.Decide.{
  Ask, statement_matches, effect_match, decide, allows, authorize, is_no_docs,
}

any_of-Mem {ℓ} :
    {A : Type ℓ} (test : A → Bool) (l : List A)
    → any_of test l ≡ true
    → (a : A) × Memᴰ a l × (test a ≡ true)
unfolding any_of
any_of-Mem test [] h = absurd (ground arith)
any_of-Mem test (a ∷ l) h = elim (Bool-cases (test a)) [
  | inl t ↦ (a, Memᴰ.head refl, t)
  | inr f ↦ let (b, m, t) = any_of-Mem test l (ground arith) in (b, Memᴰ.tail m, t)
]

Mem-any_of {ℓ} :
    {A : Type ℓ} (test : A → Bool) (l : List A) (a : A)
    → Memᴰ a l
    → test a ≡ true
    → any_of test l ≡ true
unfolding any_of
Mem-any_of test [] a m t = elim m [ ]
Mem-any_of test (b ∷ l) a (Memᴰ.head e) t = ground (arith, ap test e)
Mem-any_of test (b ∷ l) a (Memᴰ.tail m) t = ground (arith, Mem-any_of test l a m t)

module _ (parse_float : Bytes → Option F64) where
  -- A statement of the documents has the effect and applies to what is asked.
  abbrev pub Has : Bytes → List Members → Ask → Type 0
  Has effect docs ask =
      (doc : Members) × (st : Members) × Memᴰ doc docs
      × Memᴰ st (statements doc)
      × (statement_matches parse_float effect ask st ≡ true)

  -- No statement denies, and where there are documents one allows.
  abbrev pub Permits : List Members → Ask → Type 0
  Permits docs ask =
      (Has (codes "Deny") docs ask → ⊥) × ((docs ≡ []) ⊎ Has (codes "Allow") docs ask)

  Has-of_match :
      (effect : Bytes) (docs : List Members) (ask : Ask)
      → effect_match parse_float docs effect ask ≡ true
      → Has effect docs ask
  unfolding effect_match
  Has-of_match effect docs ask h =
      let (doc, m, t) =
        any_of-Mem (λ d. any_of (statement_matches parse_float effect ask) (statements d)) docs h in
      let (st, k, u) = any_of-Mem (statement_matches parse_float effect ask) (statements doc) t in
      (doc, st, m, k, u)

  match-of_Has :
      (effect : Bytes) (docs : List Members) (ask : Ask)
      → Has effect docs ask
      → effect_match parse_float docs effect ask ≡ true
  unfolding effect_match
  match-of_Has effect docs ask (doc, st, m, k, u) =
      Mem-any_of (λ d. any_of (statement_matches parse_float effect ask) (statements d)) docs doc m
        (Mem-any_of (statement_matches parse_float effect ask) (statements doc) st k u)

  allows-matches :
      (docs : List Members) (ask : Ask)
      → allows parse_float docs ask ≡ (
          not (effect_match parse_float docs (codes "Deny") ask)
          && (is_no_docs docs || effect_match parse_float docs (codes "Allow") ask))
  unfolding allows decide
  allows-matches docs ask = ground arith

  no_docs : (docs : List Members) → is_no_docs docs ≡ true → docs ≡ []
  no_docs [] h = refl
  no_docs (d ∷ docs) h = absurd (ground arith)

  Permits-of_allows :
      (docs : List Members) (ask : Ask) → allows parse_float docs ask ≡ true → Permits docs ask
  Permits-of_allows docs ask h = (
    (λ has.
        absurd (ground (arith, allows-matches docs ask, match-of_Has (codes "Deny") docs ask has))),
    elim (Bool-cases (is_no_docs docs)) [
      | inl n ↦ inl (no_docs docs n)
      | inr n ↦
          inr (Has-of_match (codes "Allow") docs ask (ground (arith, allows-matches docs ask)))
    ],
  )

  allows-of_Permits :
      (docs : List Members) (ask : Ask) → Permits docs ask → allows parse_float docs ask ≡ true
  allows-of_Permits docs ask (deny, allow) =
      elim (Bool-cases (effect_match parse_float docs (codes "Deny") ask)) [
        | inl t ↦ absurd (deny (Has-of_match (codes "Deny") docs ask t))
        | inr f ↦ elim allow [
          | inl e ↦ ground (arith, allows-matches docs ask, ap is_no_docs e)
          | inr has ↦
              ground (arith, allows-matches docs ask, match-of_Has (codes "Allow") docs ask has)
        ]
      ]

  no_scps : (ask : Ask) → Permits [] ask
  no_scps ask = ((λ (doc, st, m, k, u). elim m [ ]), inl refl)

  authorize-allows :
      (active : Bool) (docs scps : List Members) (ask : Ask)
      → authorize parse_float active docs scps ask
        ≡ (active && allows parse_float docs ask && allows parse_float scps ask)
  unfolding authorize
  authorize-allows active docs [] ask = ground (arith, allows-of_Permits [] ask (no_scps ask))
  authorize-allows active docs (s ∷ scps) ask = ground arith

  -- `authorize` answers no error exactly if the principal is active and both the principal's
  -- documents and the organisation's permit the request: no statement of theirs denies it, and
  -- where there are documents some statement allows it.
  pub authorize-Permits :
      (active : Bool) (docs scps : List Members) (ask : Ask)
      → (authorize parse_float active docs scps ask ≡ true)
        ↔ ((active ≡ true) × Permits docs ask × Permits scps ask)
  authorize-Permits active docs scps ask = (
    (λ h. (
      ground (arith, authorize-allows active docs scps ask),
      Permits-of_allows docs ask (ground (arith, authorize-allows active docs scps ask)),
      Permits-of_allows scps ask (ground (arith, authorize-allows active docs scps ask)),
    )),
    (λ (a, d, s). ground (
      arith,
      authorize-allows active docs scps ask,
      allows-of_Permits docs ask d,
      allows-of_Permits scps ask s,
    )),
  )
