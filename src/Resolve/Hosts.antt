-- ===== src/Resolve/Hosts.antt =====
-- The declared hosts that match, in serviceByDeclaredHost (internal/edge/resolve.go).
use mathlib.Core.List.{Memᴰ}
use mirror_cloud.Common.{
  ◌≡◌, ◌≢◌, ◌∙◌, ◌⊎◌, refl, sym, ap, subst, inl, inr, Bool, true, false, not, ◌&&◌, ◌||◌, ◌++◌,
  List, [], ◌∷◌, length, drop, take, take-append-drop, ◌-◌, Bool-cases, if◌then◌else◌, arith,
}
use mirror_cloud.Bytes.{Bytes, codes, is_empty, same, same_iff, same_self}
use mirror_cloud.Iam.Condition.IfExists.{has_suffix-append}
use mirror_cloud.Bytes.Fold.{to_lower, has_suffix}
use mirror_cloud.Resolve.{Service, matching_hosts}

suffix_of : (p s : Bytes) → has_suffix p s ≡ true → (front : Bytes) × (s ≡ front ++ p)
unfolding has_suffix
suffix_of p s h =
    let n = length s - length p in
    (
      take n s,
      sym (take-append-drop n s)
          ∙ ap (λ t. take n s ++ t) (ground (arith, h, same_iff (drop n s) p)),
    )

-- The test on a declared host, which is in lower case.
abbrev pub hits : Bytes → Bytes → Bool
hits host d = not (is_empty d) && (same host d || has_suffix (codes "." ++ d) host)

abbrev pub Below : Bytes → Bytes → Type 0
Below host d = (host ≡ d) ⊎ ((front : Bytes) × (host ≡ front ++ (codes "." ++ d)))

not_empty : (d : Bytes) → is_empty d ≡ false → d ≢ []
not_empty [] h e = absurd cc
not_empty (c ∷ d) h e = cc

is_empty-of : (d : Bytes) → d ≢ [] → is_empty d ≡ false
is_empty-of [] h = absurd (h refl)
is_empty-of (c ∷ d) h = refl

pub hits-Below : (host d : Bytes) → hits host d ≡ true → (d ≢ []) × Below host d
hits-Below host d h = elim (Bool-cases (same host d)) [
  | inl e ↦ (not_empty d (ground (arith, h)), inl ((same_iff host d).0 e))
  | inr e ↦ (
    not_empty d (ground (arith, h)),
    inr (suffix_of (codes "." ++ d) host (ground (arith, h, e))),
  )
]

pub Below-hits : (host d : Bytes) → d ≢ [] → Below host d → hits host d ≡ true
Below-hits host d n (inl e) = ground (arith, is_empty-of d n, same_self d, ap (λ k. same k d) e)
Below-hits host d n (inr (front, e)) = ground (
  arith,
  is_empty-of d n,
  ap (has_suffix (codes "." ++ d)) e,
  has_suffix-append front (codes "." ++ d),
)

matching_hosts-cons :
    (host w : Bytes) (svc : Service) (ws : List Bytes)
    → matching_hosts host svc (w ∷ ws) ≡ (
        if hits host (to_lower w)
        then (svc, to_lower w) ∷ matching_hosts host svc ws
        else matching_hosts host svc ws)
unfolding matching_hosts
matching_hosts-cons host w svc ws = refl

-- A host that a service writes and that hits.
pub record Hit (host : Bytes) (ws : List Bytes) (d : Bytes) : Type 0 where
  pub written : Bytes
  pub listed : Memᴰ written ws
  pub lowered : to_lower written ≡ d
  pub hit : hits host d ≡ true

Hit-tail : (host w d : Bytes) (ws : List Bytes) → Hit host ws d → Hit host (w ∷ ws) d
Hit-tail host w d ws h = record {
  written = h.written;
  listed = Memᴰ.tail h.listed;
  lowered = h.lowered;
  hit = h.hit;
}

fst_eq : (a b : Service) (c d : Bytes) → ◌≡◌ {A = Service × Bytes} (a, c) (b, d) → a ≡ b
fst_eq a b c d e = ap (λ (p : Service × Bytes). p.0) e

snd_eq : (a b : Service) (c d : Bytes) → ◌≡◌ {A = Service × Bytes} (a, c) (b, d) → c ≡ d
snd_eq a b c d e = ap (λ (p : Service × Bytes). p.1) e

pub of_matching :
    (host d : Bytes) (svc other : Service) (ws : List Bytes)
    → Memᴰ (other, d) (matching_hosts host svc ws)
    → (other ≡ svc) × Hit host ws d
of_matching host d svc other [] m =
    let n : Memᴰ {A = Service × Bytes} (other, d) [] = unfold matching_hosts in m in elim n [ ]
of_matching host d svc other (w ∷ ws) m =
    by_test (hits host (to_lower w)) refl (λ k. of_matching host d svc other ws k)
      (subst (Memᴰ (other, d)) (matching_hosts-cons host w svc ws) m)
  where
    by_test :
        (b : Bool)
        → hits host (to_lower w) ≡ b
        → (Memᴰ (other, d) (matching_hosts host svc ws) → (other ≡ svc) × Hit host ws d)
        → Memᴰ
            (other, d)
            (if b
              then (svc, to_lower w) ∷ matching_hosts host svc ws
              else matching_hosts host svc ws)
        → (other ≡ svc) × Hit host (w ∷ ws) d
    by_test true e ih (Memᴰ.head q) = (
      fst_eq other svc d (to_lower w) q,
      record {
        written = w;
        listed = Memᴰ.head refl;
        lowered = sym (snd_eq other svc d (to_lower w) q);
        hit = ap (hits host) (snd_eq other svc d (to_lower w) q) ∙ e;
      },
    )
    by_test true e ih (Memᴰ.tail k) = ((ih k).0, Hit-tail host w d ws (ih k).1)
    by_test false e ih k = ((ih k).0, Hit-tail host w d ws (ih k).1)

pub to_matching :
    (host d w : Bytes) (svc : Service) (ws : List Bytes)
    → Memᴰ w ws
    → to_lower w ≡ d
    → hits host d ≡ true
    → Memᴰ (svc, d) (matching_hosts host svc ws)
to_matching host d w svc [] m e h = elim m [ ]
to_matching host d w svc (v ∷ ws) (Memᴰ.head q) e h =
    let low : to_lower v ≡ d = ap to_lower (sym q) ∙ e in
    subst (Memᴰ (svc, d)) (sym (matching_hosts-cons host v svc ws))
      (rw (ap (hits host) low ∙ h) (Memᴰ.head (ap (λ k. (svc, k)) (sym low))))
to_matching host d w svc (v ∷ ws) (Memᴰ.tail m) e h =
    subst (Memᴰ (svc, d)) (sym (matching_hosts-cons host v svc ws))
      (either (hits host (to_lower v)) (to_matching host d w svc ws m e h))
  where
    either :
        (b : Bool)
        → Memᴰ (svc, d) (matching_hosts host svc ws)
        → Memᴰ
            (svc, d)
            (if b
              then (svc, to_lower v) ∷ matching_hosts host svc ws
              else matching_hosts host svc ws)
    either true k = Memᴰ.tail k
    either false k = k
