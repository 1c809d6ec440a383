-- ===== src/Resolve.antt =====
-- Finding the service that a request is addressed to: internal/edge/resolve.go.
pub mod Longest
pub mod Hosts
pub mod Declared
mod Tests
use mirror_cloud.Common.{
  ℕ, zero, suc, Bool, true, false, not, ◌&&◌, ◌||◌, List, [], ◌∷◌, ◌++◌, Option, none, some, ◌==◌,
  ltb, length, map_option, if◌then◌else◌,
}
use mirror_cloud.Bytes.{Bytes, codes, same, less, has_prefix, has_byte, is_empty, cut}
use mirror_cloud.Bytes.Fold.{to_lower, equal_fold, has_suffix, after_first}
use mirror_cloud.Bytes.Words.{split, replace_all}

-- The parts of a model's service that are used here.
pub record Service : Type 0 where
  pub id : Bytes
  pub endpoint_prefix : Bytes
  pub aliases : List Bytes
  pub hosts : List Bytes

-- host[:i] at a colon
abbrev pub without_port : Bytes → Bytes
without_port host = (cut b':' host).0

-- endpointHost
unfoldable pub endpoint_host : Bytes → Bytes
unfolding cut to_lower replace_all
endpoint_host host = replace_all (to_lower (without_port host)) (codes "-fips.") (codes ".")

-- hostLabel
unfoldable pub host_label : Bytes → Bytes
unfolding endpoint_host cut
host_label host = (cut b'.' (endpoint_host (without_port host))).0

-- The text before a comma or a blank.
unfoldable pub up_to_separator : Bytes → Bytes
up_to_separator [] = []
up_to_separator (c ∷ s) =
    let rest = up_to_separator s in if c == b',' || c == 32 then [] else c ∷ rest

abbrev fourth : List Bytes → Bytes
fourth (_ ∷ _ ∷ _ ∷ part ∷ _) = to_lower part
fourth _ = []

-- credentialScopeService
unfoldable pub credential_scope_service : Bytes → Bytes
unfolding after_first up_to_separator split to_lower
credential_scope_service authorization = elim (after_first (codes "Credential=") authorization) [
  | none ↦ []
  | some cred ↦ fourth (split b'/' (up_to_separator cred))
]

-- serviceByHostPrefix
abbrev prefix_matches : Bytes → Service → Bool
prefix_matches host svc =
    let prefix = to_lower svc.endpoint_prefix in
    not (is_empty prefix)
    && (has_byte b'.' prefix && (same host prefix || has_prefix (prefix ++ codes ".") host))

abbrev longer_prefix : Service → Option Service → Option Service
longer_prefix svc none = some svc
longer_prefix svc (some best) =
    if ltb (length best.endpoint_prefix) (length (to_lower svc.endpoint_prefix))
    then some svc
    else some best

unfoldable pub prefix_loop : Bytes → List Service → Option Service → Option Service
unfolding to_lower same has_prefix has_byte
prefix_loop host [] best = best
prefix_loop host (svc ∷ services) best =
    prefix_loop host services (if prefix_matches host svc then longer_prefix svc best else best)

unfoldable pub service_by_host_prefix : List Service → Bytes → Option Service
unfolding endpoint_host prefix_loop
service_by_host_prefix services host =
    if is_empty (endpoint_host host) then none else prefix_loop (endpoint_host host) services none

-- answersTo
unfoldable pub any_alias : Bytes → List Bytes → Bool
unfolding equal_fold
any_alias label [] = false
any_alias label (alias ∷ aliases) = equal_fold alias label || any_alias label aliases

unfoldable pub answers_to : Service → Bytes → Bool
unfolding any_alias equal_fold
answers_to svc label =
    not (is_empty svc.endpoint_prefix) && equal_fold svc.endpoint_prefix label
    || any_alias label svc.aliases

-- shortName
unfoldable pub short_name : Bytes → Bytes
unfolding cut to_lower
short_name id = if (cut b'.' id).2 then to_lower (cut b'.' id).1 else to_lower id

-- awsProvider
unfoldable pub aws_provider : Bytes → Bool
unfolding cut same
aws_provider id = (cut b'.' id).2 && same (cut b'.' id).0 (codes "aws")

-- The hosts that a service declares and that the host is or is below, in lower case.
unfoldable pub matching_hosts : Bytes → Service → List Bytes → List (Service × Bytes)
unfolding to_lower same has_suffix
matching_hosts host svc [] = []
matching_hosts host svc (h ∷ hs) =
    let rest = matching_hosts host svc hs in
    let declared = to_lower h in
    if not (is_empty declared) && (same host declared || has_suffix (codes "." ++ declared) host)
    then (svc, declared) ∷ rest
    else rest

-- The pairs that the loops of serviceByDeclaredHost look at.
unfoldable pub declared_pairs : Bytes → List Service → List (Service × Bytes)
unfolding matching_hosts aws_provider
declared_pairs host [] = []
declared_pairs host (svc ∷ services) =
    let rest = declared_pairs host services in
    if aws_provider svc.id then rest else matching_hosts host svc svc.hosts ++ rest

-- A longer host, or one as long of a service whose name comes first.
abbrev pub beats : Service × Bytes → Service × Bytes → Bool
beats (svc, declared) (best, host) =
    ltb (length host) (length declared) || length declared == length host && less svc.id best.id

abbrev pub better : Service × Bytes → Option (Service × Bytes) → Option (Service × Bytes)
better x none = some x
better x (some best) = if beats x best then some x else some best

unfoldable pub best_pair :
    List (Service × Bytes) → Option (Service × Bytes) → Option (Service × Bytes)
unfolding less
best_pair [] best = best
best_pair (x ∷ xs) best = best_pair xs (better x best)

-- serviceByDeclaredHost
unfoldable pub service_by_declared_host : List Service → Bytes → Option Service
unfolding endpoint_host declared_pairs best_pair
service_by_declared_host services host =
    if is_empty (endpoint_host host)
    then none
    else map_option (λ x. x.0) (best_pair (declared_pairs (endpoint_host host) services) none)
