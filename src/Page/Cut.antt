-- ===== src/Page/Cut.antt =====
-- A cursor of pageOf cuts a listing at its item (internal/engine/page.go, cursor.go).
use mathlib.Core.List.{Memᴰ}
use mirror_cloud.Common.{
  ℕ, suc, ◌<◌, ◌≡◌, ◌≢◌, sym, ap, ◌∙◌, true, false, Bool-cases, inl, inr, List, [], ◌∷◌, Option,
  none, some, All, arith, ◌==◌, if◌then◌else◌,
}
use mirror_cloud.Common.Int.{ℤ, pos, ◌+ℤ◌, ◌≤ℤ◌, ◌<ℤ◌, +ℤ_parts, eq_of_parts}
use mirror_cloud.Cursor.{
  Cursor, ok, cursor_of, page_cursor, slot_of, slot_count, wrap_mod, magnitude, max_cursor_ms,
}
use mirror_cloud.Cursor.Wrap.{wrap_mod_back}
use mirror_cloud.Cursor.RoundTrip.{cursor_of-page_cursor}
use mirror_cloud.Page.{
  Entry, eqz, widen, run_of, place_in, bound_of, older_than, newer_than, goes_before,
}

-- The entry, if it was made in the millisecond, has one of the n sequences from m.
abbrev pub InRun : ℤ → ℤ → ℕ → Entry → Type 0
InRun ms m n e = e.ms ≡ ms → (m ≤ℤ e.seq) × (e.seq <ℤ m +ℤ pos n)

Within : ℤ → ℕ → Option (ℤ × ℤ) → Type 0
Within m n none = Unit
Within m n (some (lo, hi)) = (m ≤ℤ lo) × (hi <ℤ m +ℤ pos n)

Covers : ℤ → Option (ℤ × ℤ) → Type 0
Covers seq none = ⊥
Covers seq (some (lo, hi)) = (lo ≤ℤ seq) × (seq ≤ℤ hi)

widen-Within :
    (m seq : ℤ) (n : ℕ) (acc : Option (ℤ × ℤ))
    → Within m n acc
    → m ≤ℤ seq
    → seq <ℤ m +ℤ pos n
    → Within m n (widen seq acc)
unfolding Within
widen-Within m seq n none w l h = (l, h)
widen-Within m seq n (some (lo, hi)) (w0, w1) l h = (ground arith, ground arith)

widen-Covers : (seq : ℤ) (acc : Option (ℤ × ℤ)) → Covers seq (widen seq acc)
unfolding Covers
widen-Covers seq none = (omega arith, omega arith)
widen-Covers seq (some (lo, hi)) = (ground arith, ground arith)

widen-Covers_old :
    (old seq : ℤ) (acc : Option (ℤ × ℤ)) → Covers old acc → Covers old (widen seq acc)
unfolding Covers
widen-Covers_old old seq none c = elim c [ ]
widen-Covers_old old seq (some (lo, hi)) (l, h) = (ground arith, ground arith)

eqz-eq : (i j : ℤ) → eqz i j ≡ true → i ≡ j
eqz-eq i j h = eq_of_parts i j (ground arith)

eqz_refl : (i : ℤ) → eqz i i ≡ true
eqz_refl i = ground arith

run_of-Within :
    (ms m : ℤ) (n : ℕ) (es : List Entry) (acc : Option (ℤ × ℤ))
    → All (InRun ms m n) es
    → Within m n acc
    → Within m n (run_of ms es acc)
unfolding run_of
run_of-Within ms m n [] acc _ w = w
run_of-Within ms m n (e ∷ es) acc (r, rs) w = elim (Bool-cases (eqz e.ms ms)) [
  | inl t ↦
      let (l, h) = r (eqz-eq e.ms ms t) in
      rw t (run_of-Within ms m n es (widen e.seq acc) rs (widen-Within m e.seq n acc w l h))
  | inr f ↦ rw f (run_of-Within ms m n es acc rs w)
]

run_of-Covers_old :
    (ms seq : ℤ) (es : List Entry) (acc : Option (ℤ × ℤ))
    → Covers seq acc
    → Covers seq (run_of ms es acc)
unfolding run_of
run_of-Covers_old ms seq [] acc c = c
run_of-Covers_old ms seq (e ∷ es) acc c = elim (Bool-cases (eqz e.ms ms)) [
  | inl t ↦ rw t (run_of-Covers_old ms seq es (widen e.seq acc) (widen-Covers_old seq e.seq acc c))
  | inr f ↦ rw f (run_of-Covers_old ms seq es acc c)
]

run_of-Covers :
    (x : Entry) (es : List Entry) (acc : Option (ℤ × ℤ))
    → Memᴰ x es
    → Covers x.seq (run_of x.ms es acc)
unfolding run_of
run_of-Covers x [] acc mem = elim mem [ ]
run_of-Covers x (y ∷ es) acc (Memᴰ.head e) =
    rw (sym e, eqz_refl x.ms)
      (run_of-Covers_old x.ms x.seq es (widen x.seq acc) (widen-Covers x.seq acc))
run_of-Covers x (y ∷ es) acc (Memᴰ.tail h) =
    run_of-Covers x es (if eqz y.ms x.ms then widen y.seq acc else acc) h

-- The item named is found when the run it was made in is no longer than the slot count.
place_in_exact :
    (m seq : ℤ) (n : ℕ) (acc : Option (ℤ × ℤ))
    → Within m n acc
    → Covers seq acc
    → place_in (suc (wrap_mod seq n)) n acc ≡ seq
unfolding place_in Within Covers
place_in_exact m seq n none w c = elim c [ ]
place_in_exact m seq n (some (lo, hi)) (w0, w1) (l, h) =
    let short : seq <ℤ lo +ℤ pos n = omega (arith, +ℤ_parts lo (pos n), +ℤ_parts m (pos n)) in
    rw (wrap_mod_back seq lo n l short) (ground arith)

-- The cursor of an entry.
cursor_at : Entry → Cursor
cursor_at x = record { set = true; ms = x.ms; slot = slot_of x.ms x.seq }

slot_of-suc : (ms seq : ℤ) → slot_count ms ≢ 0 → slot_of ms seq ≡ suc (wrap_mod seq (slot_count ms))
unfolding slot_of
slot_of-suc ms seq h = ground arith

suc_test : (k : ℕ) → (suc k == 0) ≡ false
suc_test k = ground arith

ok_injective : (c d : Cursor) → ok c ≡ ok d → c ≡ d
ok_injective c d h = cc

bound_of_exact :
    (x : Entry) (m : ℤ) (es : List Entry)
    → Memᴰ x es
    → All (InRun x.ms m (slot_count x.ms)) es
    → slot_count x.ms ≢ 0
    → bound_of (cursor_at x) es ≡ record { cursor = cursor_at x; seq = x.seq }
unfolding bound_of cursor_at
bound_of_exact x m es mem run h =
    rw (slot_of-suc x.ms x.seq h, suc_test (wrap_mod x.seq (slot_count x.ms)))
      (ap
        (λ s. record {
          cursor = record { set = true; ms = x.ms; slot = suc (wrap_mod x.seq (slot_count x.ms)) };
          seq = s;
        })
        (place_in_exact m x.seq (slot_count x.ms) (run_of x.ms es none)
          (run_of-Within x.ms m (slot_count x.ms) es none run (unfold Within in tt))
          (run_of-Covers x es none mem)))

older_than_exact :
    (x e : Entry)
    → slot_of x.ms x.seq ≢ 0
    → older_than (record { cursor = cursor_at x; seq = x.seq }) e ≡ goes_before false x e
unfolding older_than goes_before cursor_at
older_than_exact x e h = ground arith

newer_than_exact :
    (x e : Entry)
    → slot_of x.ms x.seq ≢ 0
    → newer_than (record { cursor = cursor_at x; seq = x.seq }) e ≡ goes_before false e x
unfolding newer_than goes_before cursor_at
newer_than_exact x e h = ground arith

-- For an entry x of a listing whose millisecond is below 2^53 in magnitude and has a slot, where
-- the entries of x's millisecond have sequences within one slot count: the cursor made for x, read
-- back, cuts the listing exactly at x. `olderThan` keeps an entry exactly if x goes before it in
-- the newest-first order, and `newerThan` exactly if it goes before x.
pub bound_of-page_cursor :
    (x : Entry) (m : ℤ) (es : List Entry) (c : Cursor)
    → Memᴰ x es
    → All (InRun x.ms m (slot_count x.ms)) es
    → slot_count x.ms ≢ 0
    → magnitude x.ms < max_cursor_ms
    → cursor_of (page_cursor x.ms x.seq) ≡ ok c
    → (e : Entry)
    → (older_than (bound_of c es) e ≡ goes_before false x e)
      × (newer_than (bound_of c es) e ≡ goes_before false e x)
bound_of-page_cursor x m es c mem run h low parsed e =
    let named : cursor_at x ≡ c =
      ok_injective (cursor_at x) c
        (unfold cursor_at in sym (cursor_of-page_cursor x.ms x.seq low) ∙ parsed) in
    let slot : slot_of x.ms x.seq ≢ 0 = rw (slot_of-suc x.ms x.seq h) (ground arith) in
    rw (sym named, bound_of_exact x m es mem run h)
      (older_than_exact x e slot, newer_than_exact x e slot)
