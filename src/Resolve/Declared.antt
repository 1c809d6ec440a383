-- ===== src/Resolve/Declared.antt =====
-- What serviceByDeclaredHost (internal/edge/resolve.go) answers, by what the services declare.
use mathlib.Core.List.{Memᴰ}
use mathlib.Core.List.Memᴰ
use mirror_cloud.Common.{
  ◌≡◌, ◌≢◌, ◌<◌, ◌⊎◌, refl, sym, subst, inl, inr, Bool, true, false, ltb, ◌++◌, List, [], ◌∷◌,
  Option, none, some, length, Bool-cases, if◌then◌else◌, arith,
}
use mirror_cloud.Bytes.{Bytes, codes, is_empty, less}
use mirror_cloud.Bytes.Fold.{to_lower}
use mirror_cloud.Resolve.{
  Service, aws_provider, beats, matching_hosts, declared_pairs, endpoint_host,
  service_by_declared_host,
}
use mirror_cloud.Resolve.Longest.{IsDeclared, service_by_declared_host-best}
use mirror_cloud.Resolve.Hosts.{Hit, hits-Below, Below-hits, of_matching, to_matching}

-- The service, which is not one of AWS, declares a host that is not empty and that in lower case is
-- the host asked for, or what follows a dot in it.
pub record Declares (svc : Service) (host declared : Bytes) : Type 0 where
  pub no_aws : aws_provider svc.id ≡ false
  pub written : Bytes
  pub listed : Memᴰ written svc.hosts
  pub lowered : to_lower written ≡ declared
  pub some_name : declared ≢ []
  pub at_or_below :
      (host ≡ declared) ⊎ ((front : Bytes) × (host ≡ front ++ (codes "." ++ declared)))

-- A shorter host, or one as long of a service whose id does not come first.
abbrev pub NoBetter : Service → Bytes → Service → Bytes → Type 0
NoBetter svc declared other host =
    (length host < length declared)
    ⊎ ((length host ≡ length declared) × (less other.id svc.id ≡ false))

-- What is answered for a host.
abbrev pub IsAnswer : List Service → Bytes → Option Service → Type 0
IsAnswer services host none =
    (svc : Service) (declared : Bytes) → Memᴰ svc services → ¬ (Declares svc host declared)
IsAnswer services host (some svc) =
    Memᴰ svc services
    × ((declared : Bytes) × Declares svc host declared
        × ((other : Service) (d : Bytes)
            → Memᴰ other services
            → Declares other host d
            → NoBetter svc declared other d))

declared_pairs-cons :
    (host : Bytes) (svc : Service) (services : List Service)
    → declared_pairs host (svc ∷ services) ≡ (
        if aws_provider svc.id
        then declared_pairs host services
        else matching_hosts host svc svc.hosts ++ declared_pairs host services)
unfolding declared_pairs
declared_pairs-cons host svc services = refl

declares :
    (host d : Bytes) (svc : Service)
    → aws_provider svc.id ≡ false
    → Hit host svc.hosts d
    → Declares svc host d
declares host d svc a h =
    let (n, b) = hits-Below host d h.hit in
    record {
      no_aws = a;
      written = h.written;
      listed = h.listed;
      lowered = h.lowered;
      some_name = n;
      at_or_below = b;
    }

of_pairs :
    (host d : Bytes) (svc : Service) (services : List Service)
    → Memᴰ (svc, d) (declared_pairs host services)
    → Memᴰ svc services × Declares svc host d
of_pairs host d svc [] m =
    let n : Memᴰ {A = Service × Bytes} (svc, d) [] = unfold declared_pairs in m in elim n [ ]
of_pairs host d svc (s ∷ services) m =
    by_test (aws_provider s.id) refl (λ k. of_pairs host d svc services k)
      (subst (Memᴰ (svc, d)) (declared_pairs-cons host s services) m)
  where
    by_test :
        (b : Bool)
        → aws_provider s.id ≡ b
        → (Memᴰ (svc, d) (declared_pairs host services) → Memᴰ svc services × Declares svc host d)
        → Memᴰ
            (svc, d)
            (if b
              then declared_pairs host services
              else matching_hosts host s s.hosts ++ declared_pairs host services)
        → Memᴰ svc (s ∷ services) × Declares svc host d
    by_test true e ih k = (Memᴰ.tail (ih k).0, (ih k).1)
    by_test false e ih k = elim (Memᴰ.append_cases (matching_hosts host s s.hosts) k) [
      | inl l ↦
          let (same_service, hit) = of_matching host d s svc s.hosts l in
          (
            Memᴰ.head same_service,
            subst (λ (v : Service). Declares v host d) (sym same_service) (declares host d s e hit),
          )
      | inr l ↦ (Memᴰ.tail (ih l).0, (ih l).1)
    ]

to_pairs :
    (host d : Bytes) (svc : Service) (services : List Service)
    → Memᴰ svc services
    → Declares svc host d
    → Memᴰ (svc, d) (declared_pairs host services)
to_pairs host d svc [] m c = elim m [ ]
to_pairs host d svc (s ∷ services) (Memᴰ.head e) c =
    let a : aws_provider s.id ≡ false =
      subst (λ (v : Service). aws_provider v.id ≡ false) e c.no_aws in
    let own : Memᴰ (s, d) (matching_hosts host s s.hosts) =
      subst (λ (v : Service). Memᴰ (v, d) (matching_hosts host v v.hosts)) e
        (to_matching host d c.written svc svc.hosts c.listed c.lowered
          (Below-hits host d c.some_name c.at_or_below)) in
    subst (λ (v : Service). Memᴰ (v, d) (declared_pairs host (s ∷ services))) (sym e)
      (subst (Memᴰ (s, d)) (sym (declared_pairs-cons host s services))
        (rw a (Memᴰ.append_left (declared_pairs host services) own)))
to_pairs host d svc (s ∷ services) (Memᴰ.tail m) c =
    subst (Memᴰ (svc, d)) (sym (declared_pairs-cons host s services))
      (either (aws_provider s.id) (to_pairs host d svc services m c))
  where
    either :
        (b : Bool)
        → Memᴰ (svc, d) (declared_pairs host services)
        → Memᴰ
            (svc, d)
            (if b
              then declared_pairs host services
              else matching_hosts host s s.hosts ++ declared_pairs host services)
    either true k = k
    either false k = Memᴰ.append_right (matching_hosts host s s.hosts) k

no_better :
    (svc other : Service) (declared d : Bytes)
    → beats (other, d) (svc, declared) ≡ false
    → NoBetter svc declared other d
no_better svc other declared d h = elim (Bool-cases (ltb (length d) (length declared))) [
  | inl t ↦ inl (ground (arith, t))
  | inr f ↦ inr (ground (arith, h, f))
]

nothing_in : (x : Service × Bytes) (xs : List (Service × Bytes)) → xs ≡ [] → ¬ (Memᴰ x xs)
nothing_in x xs e m = let n : Memᴰ x [] = subst (Memᴰ x) e m in elim n [ ]

IsAnswer-of :
    (services : List Service) (host : Bytes) (o : Option Service)
    → IsDeclared (declared_pairs host services) o
    → IsAnswer services host o
IsAnswer-of services host none h = λ svc d m c.
    nothing_in (svc, d) (declared_pairs host services) h (to_pairs host d svc services m c)
IsAnswer-of services host (some svc) (declared, m, best) =
    let (listed, c) = of_pairs host declared svc services m in
    (
      listed,
      (
        declared,
        c,
        λ other d l k.
            no_better svc other declared d (best (other, d) (to_pairs host d other services l k)),
      ),
    )

-- For a host whose name is not empty, `serviceByDeclaredHost` answers none exactly where no service
-- that is not of AWS declares a host that in lower case is that name or what follows a dot at its
-- end. Otherwise it answers such a service with such a host that is as long as any, and no service
-- with one as long has an id before its id.
pub service_by_declared_host-IsAnswer :
    (services : List Service) (host : Bytes)
    → is_empty (endpoint_host host) ≡ false
    → IsAnswer services (endpoint_host host) (service_by_declared_host services host)
service_by_declared_host-IsAnswer services host h =
    IsAnswer-of services (endpoint_host host) (service_by_declared_host services host)
      (service_by_declared_host-best services host h)
