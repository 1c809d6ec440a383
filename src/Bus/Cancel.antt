-- ===== src/Bus/Cancel.antt =====
-- What the cancel functions of internal/bus/bus.go take out.
use mathlib.Core.List.{append-nil, append_assoc, map-append}
use mirror_cloud.Common.{
  ℕ, ◌≡◌, refl, ap, ◌∙◌, List, [], ◌∷◌, ◌++◌, map, length, ltb, if◌then◌else◌, arith, length-append,
  ◌&&◌,
}
use mirror_cloud.Bytes.{Bytes, same, same_iff, same_self}
use mirror_cloud.GoMap.{lookup-insert}
use mirror_cloud.Bus.{Handler, Bus, subs_of, publish, subscribe, without_index, cancel}

pub subs_of-subscribe :
    (topic t : Bytes) (fn : Handler) (b : Bus)
    → subs_of t (subscribe topic fn b).1
      ≡ (if same topic t then subs_of topic b ++ fn ∷ [] else subs_of t b)
unfolding subscribe
subs_of-subscribe topic t fn b =
    ground (arith, lookup-insert topic t (subs_of topic b ++ fn ∷ []) b.subs)

pub subs_of-cancel :
    (topic t : Bytes) (idx : ℕ) (b : Bus)
    → subs_of t (cancel topic idx b) ≡ (
        if same topic t && ltb idx (length (subs_of topic b))
        then without_index idx (subs_of topic b)
        else subs_of t b)
unfolding cancel
subs_of-cancel topic t idx b =
    ground (arith, lookup-insert topic t (without_index idx (subs_of topic b)) b.subs)

without_index-length :
    (s u : List Handler) (fn : Handler) → without_index (length s) (s ++ fn ∷ u) ≡ s ++ u
unfolding without_index
without_index-length [] u fn = refl
without_index-length (g ∷ s) u fn = ap (λ l. g ∷ l) (without_index-length s u fn)

-- Uses of the bus that cancel the latest subscription first.
pub data Nested : Bus → Bus → Type 0 where
  nothing : {b : Bus} → Nested b b
  both : {b c d : Bus} → Nested b c → Nested c d → Nested b d
  scoped :
      {b c : Bus} (topic : Bytes) (fn : Handler)
      → Nested (subscribe topic fn b).1 c
      → Nested b (cancel topic (subscribe topic fn b).0 c)

idx-subscribe :
    (topic : Bytes) (fn : Handler) (b : Bus) → (subscribe topic fn b).0 ≡ length (subs_of topic b)
unfolding subscribe
idx-subscribe topic fn b = refl

cancel_last :
    (topic t : Bytes) (fn : Handler) (b c : Bus)
    → ((u : Bytes) → subs_of u c ≡ subs_of u (subscribe topic fn b).1)
    → subs_of t (cancel topic (subscribe topic fn b).0 c) ≡ subs_of t b
cancel_last topic t fn b c h =
    let own : subs_of topic c ≡ subs_of topic b ++ fn ∷ [] =
      ground (arith, h topic, subs_of-subscribe topic topic fn b, same_self topic) in
    ground (
      arith,
      idx-subscribe topic fn b,
      own,
      h t,
      subs_of-subscribe topic t fn b,
      subs_of-cancel topic t (length (subs_of topic b)) c,
      without_index-length (subs_of topic b) [] fn,
      length-append (subs_of topic b) (fn ∷ []),
      same_iff topic t,
      append-nil (subs_of topic b),
    )

-- Uses of the bus that cancel the latest subscription first, nested and in sequence in any way,
-- leave the subscribers of every topic as they were.
pub Nested-subs_of : {b c : Bus} → Nested b c → (t : Bytes) → subs_of t c ≡ subs_of t b
Nested-subs_of nothing t = refl
Nested-subs_of (both p q) t = Nested-subs_of q t ∙ Nested-subs_of p t
Nested-subs_of {b} (scoped {c = c} topic fn p) t = cancel_last topic t fn b c (Nested-subs_of p)

-- Two subscriptions to a topic, cancelled in the order in which they were made.
abbrev pub first_in_first_out : Bytes → Handler → Handler → Bus → Bus
first_in_first_out topic f g b =
    let (i, b₁) = subscribe topic f b in
    let (j, b₂) = subscribe topic g b₁ in cancel topic j (cancel topic i b₂)

subs_of-two :
    (topic : Bytes) (f g : Handler) (b : Bus)
    → subs_of topic (subscribe topic g (subscribe topic f b).1).1 ≡ subs_of topic b ++ f ∷ g ∷ []
subs_of-two topic f g b = ground (
  arith,
  subs_of-subscribe topic topic g (subscribe topic f b).1,
  subs_of-subscribe topic topic f b,
  same_self topic,
  append_assoc (subs_of topic b) (f ∷ []) (g ∷ []),
)

subs_of-fifo :
    (topic : Bytes) (f g : Handler) (b : Bus)
    → subs_of topic (first_in_first_out topic f g b) ≡ subs_of topic b ++ g ∷ []
subs_of-fifo topic f g b =
    let b₂ = (subscribe topic g (subscribe topic f b).1).1 in
    ground (
      arith,
      same_self topic,
      subs_of-two topic f g b,
      idx-subscribe topic f b,
      idx-subscribe topic g (subscribe topic f b).1,
      subs_of-subscribe topic topic f b,
      subs_of-cancel topic topic (length (subs_of topic b)) b₂,
      subs_of-cancel topic topic (length (subs_of topic (subscribe topic f b).1))
          (cancel topic (length (subs_of topic b)) b₂),
      without_index-length (subs_of topic b) (g ∷ []) f,
      length-append (subs_of topic b) (f ∷ []),
      length-append (subs_of topic b) (g ∷ []),
      length-append (subs_of topic b) (f ∷ g ∷ []),
    )

-- After two subscriptions to a topic are cancelled in the order in which they were made, a
-- publication still calls the second handler.
pub publish-fifo :
    (topic payload : Bytes) (f g : Handler) (b : Bus)
    → publish topic payload (first_in_first_out topic f g b)
      ≡ publish topic payload b ++ (g, payload) ∷ []
unfolding publish
publish-fifo topic payload f g b =
    ap (map (λ fn. (fn, payload))) (subs_of-fifo topic f g b)
    ∙ map-append (λ fn. (fn, payload)) (subs_of topic b) (g ∷ [])
