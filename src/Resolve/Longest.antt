-- ===== src/Resolve/Longest.antt =====
-- The declared host that is chosen.
use mathlib.Core.List.{Memᴰ}
use mirror_cloud.Common.{
  ◌≡◌, ◌∙◌, ◌⊎◌, refl, sym, subst, inl, inr, Bool, true, false, List, [], ◌∷◌, Option, none, some,
  map_option, Bool-cases, if◌then◌else◌, arith,
}
use mirror_cloud.Bytes.{Bytes, is_empty, less}
use mirror_cloud.Bytes.Order.{less_trans, less_asymm, less_total}
use mirror_cloud.Resolve.{
  Service, beats, best_pair, endpoint_host, declared_pairs, service_by_declared_host,
}

less_negative : (s t u : Bytes) → less s t ≡ false → less t u ≡ false → less s u ≡ false
less_negative s t u h k = elim (Bool-cases (less s u)) [
  | inr n ↦ n
  | inl y ↦ elim (Bool-cases (less t s)) [
    | inl m ↦ cc (less_trans t s u m y, k)
    | inr m ↦ cc (less_total s t h m, k)
  ]
]

beats_negative :
    (x y z : Service × Bytes) → beats x y ≡ false → beats y z ≡ false → beats x z ≡ false
beats_negative (a, s) (b, t) (c, u) h k = ground (arith, h, k, less_negative a.id b.id c.id)

beats_before : (x y z : Service × Bytes) → beats x y ≡ true → beats x z ≡ false → beats y z ≡ false
beats_before (a, s) (b, t) (c, u) h k = ground (arith, h, k, less_trans a.id b.id c.id)

-- What the loop answers from a pair chosen before.
record Chosen (b r : Service × Bytes) (xs : List (Service × Bytes)) : Type 0 where
  from : (r ≡ b) ⊎ Memᴰ r xs
  first : beats b r ≡ false
  others : (x : Service × Bytes) → Memᴰ x xs → beats x r ≡ false

beats_self : (x : Service × Bytes) → beats x x ≡ false
beats_self (a, s) = ground (arith, less_asymm a.id a.id)

others-cons :
    (x r : Service × Bytes) (xs : List (Service × Bytes))
    → beats x r ≡ false
    → ((y : Service × Bytes) → Memᴰ y xs → beats y r ≡ false)
    → (y : Service × Bytes) → Memᴰ y (x ∷ xs)
    → beats y r ≡ false
others-cons x r xs h k y (Memᴰ.head e) = subst (λ z. beats z r ≡ false) (sym e) h
others-cons x r xs h k y (Memᴰ.tail m) = k y m

from-cons :
    (x b r : Service × Bytes) (xs : List (Service × Bytes)) (c : Bool)
    → (r ≡ (if c then x else b)) ⊎ Memᴰ r xs
    → (r ≡ b) ⊎ Memᴰ r (x ∷ xs)
from-cons x b r xs true (inl e) = inr (Memᴰ.head e)
from-cons x b r xs false (inl e) = inl e
from-cons x b r xs c (inr m) = inr (Memᴰ.tail m)

abbrev Answers :
    List (Service × Bytes)
    → Service × Bytes
    → Option (Service × Bytes)
    → List (Service × Bytes)
    → Type 0
Answers xs b o seen = (r : Service × Bytes) × (best_pair xs o ≡ some r) × Chosen b r seen

chosen_pair : (xs : List (Service × Bytes)) (b : Service × Bytes) → Answers xs b (some b) xs
unfolding best_pair
chosen_pair [] b =
    (b, refl, record { from = inl refl; first = beats_self b; others = λ x m. elim m [ ] })
chosen_pair (x ∷ xs) b = by_test (beats x b) refl (chosen_pair xs)
  where
    by_test :
        (c : Bool)
        → beats x b ≡ c
        → ((y : Service × Bytes) → Answers xs y (some y) xs)
        → Answers xs b (if c then some x else some b) (x ∷ xs)
    by_test true e ih =
        let (r, h, k) = ih x in
        (
          r,
          h,
          record {
            from = from-cons x b r xs true k.from;
            first = beats_before x b r e k.first;
            others = others-cons x r xs k.first k.others;
          },
        )
    by_test false e ih =
        let (r, h, k) = ih b in
        (
          r,
          h,
          record {
            from = from-cons x b r xs false k.from;
            first = k.first;
            others = others-cons x r xs (beats_negative x b r e k.first) k.others;
          },
        )

-- The choice among pairs: none of none, or one of them that no other beats.
abbrev IsBest : List (Service × Bytes) → Option (Service × Bytes) → Type 0
IsBest xs none = xs ≡ []
IsBest xs (some r) = Memᴰ r xs × ((x : Service × Bytes) → Memᴰ x xs → beats x r ≡ false)

from_start :
    (x r : Service × Bytes) (xs : List (Service × Bytes)) → (r ≡ x) ⊎ Memᴰ r xs → Memᴰ r (x ∷ xs)
from_start x r xs (inl e) = Memᴰ.head e
from_start x r xs (inr m) = Memᴰ.tail m

first_step :
    (x : Service × Bytes) (xs : List (Service × Bytes))
    → best_pair (x ∷ xs) none ≡ best_pair xs (some x)
unfolding best_pair
first_step x xs = refl

best_pair-IsBest : (xs : List (Service × Bytes)) → IsBest xs (best_pair xs none)
best_pair-IsBest [] = unfold best_pair in refl
best_pair-IsBest (x ∷ xs) =
    let (r, h, k) = chosen_pair xs x in
    subst (IsBest (x ∷ xs)) (sym (first_step x xs ∙ h))
      (from_start x r xs k.from, others-cons x r xs k.first k.others)

-- Of the declared hosts that match, the answer's is one of the longest, and of services with hosts
-- as long its name comes first.
abbrev pub IsDeclared : List (Service × Bytes) → Option Service → Type 0
IsDeclared xs none = xs ≡ []
IsDeclared xs (some svc) =
    (declared : Bytes) × Memᴰ (svc, declared) xs
    × ((x : Service × Bytes) → Memᴰ x xs → beats x (svc, declared) ≡ false)

IsDeclared-of :
    (xs : List (Service × Bytes)) (o : Option (Service × Bytes))
    → IsBest xs o
    → IsDeclared xs (map_option (λ x. x.0) o)
IsDeclared-of xs none h = h
IsDeclared-of xs (some (svc, declared)) (m, h) = (declared, m, h)

pub service_by_declared_host-best :
    (services : List Service) (host : Bytes)
    → is_empty (endpoint_host host) ≡ false
    → IsDeclared
        (declared_pairs (endpoint_host host) services)
        (service_by_declared_host services host)
unfolding service_by_declared_host
service_by_declared_host-best services host h =
    let pairs = declared_pairs (endpoint_host host) services in
    rw h (IsDeclared-of pairs (best_pair pairs none) (best_pair-IsBest pairs))
