-- ===== src/Bus.antt =====
-- internal/bus/bus.go: in-process delivery by topic. A handler is a number.
pub mod Cancel
mod Tests
use mirror_cloud.Common.{
  ℕ, zero, suc, ◌≡◌, refl, Bool, true, false, List, [], ◌∷◌, ◌++◌, map, Option, or_else, length,
  ltb, if◌then◌else◌,
}
use mirror_cloud.Bytes.{Bytes}
use mirror_cloud.GoMap.{GoMap, lookup, insert}

abbrev pub Handler : Type 0
Handler = ℕ

pub record Bus : Type 0 where
  pub subs : GoMap (List Handler)

-- New
unfoldable pub new_bus : Bus
new_bus = record { subs = [] }

-- m.subs[topic]
unfoldable pub subs_of : Bytes → Bus → List Handler
subs_of topic b = or_else [] (lookup topic b.subs)

-- The calls that Publish makes, in order: each handler with the one copy of the payload.
unfoldable pub publish : Bytes → Bytes → Bus → List (Handler × Bytes)
unfolding subs_of
publish topic payload b = map (λ fn. (fn, payload)) (subs_of topic b)

-- Subscribe: the index that its cancel function captures, and the bus.
unfoldable pub subscribe : Bytes → Handler → Bus → ℕ × Bus
unfolding subs_of
subscribe topic fn b =
    (length (subs_of topic b), record { subs = insert topic (subs_of topic b ++ fn ∷ []) b.subs })

-- append(s[:idx], s[idx+1:]...)
unfoldable pub without_index : ℕ → List Handler → List Handler
without_index idx [] = []
without_index zero (fn ∷ s) = s
without_index (suc idx) (fn ∷ s) = fn ∷ without_index idx s

-- The cancel function that Subscribe returns.
unfoldable pub cancel : Bytes → ℕ → Bus → Bus
unfolding without_index subs_of
cancel topic idx b =
    if ltb idx (length (subs_of topic b))
    then record { subs = insert topic (without_index idx (subs_of topic b)) b.subs }
    else b
