-- ===== src/Journal/Query.antt =====
-- A query of the journal (internal/journal/journal.go) answers the newest entries that it asks for.
use mathlib.Core.List.{reverse, reverse-append}
use mirror_cloud.Common.{
  ℕ, zero, suc, ◌+◌, ◌≡◌, refl, false, not, List, [], ◌∷◌, take, keep_if, arith,
}
use mirror_cloud.Common.Int.{up}
use mirror_cloud.Journal.{Entry, Filter, Journal, record_entry, skips, query_loop, query}

-- The entries that a filter asks for.
abbrev pub asked_for : Filter → List Entry → List Entry
asked_for f = keep_if (λ e. not (skips f e))

-- A positive limit cuts a list, any other does not.
abbrev pub limited : ℕ → List Entry → List Entry
limited zero es = es
limited (suc k) es = take (suc k) es

no_limit_loop :
    (f : Filter) (n : ℕ) (es : List Entry) → up f.limit ≡ 0 → query_loop f n es ≡ asked_for f es
unfolding query_loop
no_limit_loop f n [] z = refl
no_limit_loop f n (e ∷ es) z = ground (arith, no_limit_loop f n es z, no_limit_loop f (suc n) es z)

limit_loop :
    (f : Filter) (n k : ℕ) (es : List Entry)
    → up f.limit ≡ n + suc k
    → query_loop f n es ≡ take (suc k) (asked_for f es)
unfolding query_loop
limit_loop f n k [] z = refl
limit_loop f n zero (e ∷ es) z = ground (arith, limit_loop f n zero es z)
limit_loop f n (suc k) (e ∷ es) z =
    ground (arith, limit_loop f n (suc k) es z, limit_loop f (suc n) k es (omega arith))

-- A query answers the entries, newest first, that its tests do not pass over, cut at the limit
-- where that is positive.
pub query_exact :
    (f : Filter) (m : Journal) → query f m ≡ limited (up f.limit) (asked_for f (reverse m.entries))
unfolding query
query_exact f m = go (up f.limit) refl
  where
    go :
        (k : ℕ)
        → up f.limit ≡ k
        → query_loop f 0 (reverse m.entries) ≡ limited k (asked_for f (reverse m.entries))
    go zero z = no_limit_loop f 0 (reverse m.entries) z
    go (suc k) z = limit_loop f 0 k (reverse m.entries) (omega arith)

-- Recording an entry that a query asks for puts it first in the query's answer.
pub query-record_entry :
    (f : Filter) (e : Entry) (m : Journal)
    → skips f e ≡ false
    → query f (record_entry e m) ≡ limited (up f.limit) (e ∷ asked_for f (reverse m.entries))
unfolding record_entry
query-record_entry f e m h = rw (query_exact, reverse-append, h)
