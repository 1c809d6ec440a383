-- ===== src/Cursor/Wrap.antt =====
-- The slot of a sequence determines it within a run shorter than the slot count
-- (internal/engine/cursor.go and page.go).
use native.Mathlib.Nat.{
  mod-lt, mod-eq_of_lt, mod-mod, add-mod_right, add-mul-mod_self_right, div-add-mod', mod-add-mod,
  mod_self, mod-eq-sub-mod, zero-add, sub-zero,
}
use mirror_cloud.Common.{
  ℕ, zero, suc, ◌+◌, ◌-◌, ◌*◌, ◌/◌, ◌%◌, ◌≤◌, ◌<◌, ◌≡◌, ◌≢◌, sym, ap, ◌∙◌, Bool-cases, inl, inr,
  arith, ◌==◌, ltb, ltb-lt, ltb-ge,
}
use mirror_cloud.Common.Int.{
  ℤ, pos, negsuc, up, down, ◌+ℤ◌, ◌-ℤ◌, ◌≤ℤ◌, ◌<ℤ◌, +ℤ_parts, -ℤ_parts, eq_of_parts,
}
use mirror_cloud.Cursor.{wrap_mod}

wrap_mod_pos : (x n : ℕ) → 0 < n → wrap_mod (pos x) n ≡ x % n
unfolding wrap_mod ◌+ℤ◌
wrap_mod_pos x n h = ground (arith, add-mod_right (x % n) n, mod-mod x n)

wrap_mod_negsuc : (x n : ℕ) → 0 < n → wrap_mod (negsuc x) n ≡ (n - suc x % n) % n
unfolding wrap_mod ◌+ℤ◌
wrap_mod_negsuc x n h = ground (arith, mod-lt (suc x) {m = n} h)

-- Equal up to multiples of n, and below n.
residue_unique : (x r a b n : ℕ) → r < n → x + a * n ≡ r + b * n → x % n ≡ r
residue_unique x r a b n h e =
    sym (add-mul-mod_self_right x a n)
    ∙ ap (λ t. t % n) e
    ∙ add-mul-mod_self_right r b n
    ∙ mod-eq_of_lt h

residue_zero : (x a b n : ℕ) → 0 < n → a * n ≡ x + b * n → x % n ≡ 0
residue_zero x a b n h e = residue_unique x 0 b a n h (omega arith)

sub_zero_mod : (n : ℕ) → (n - 0) % n ≡ 0
sub_zero_mod n = ap (λ k. k % n) (sub-zero n) ∙ mod_self n

complement : (t r n : ℕ) → t < n → r < n → (t + r) % n ≡ 0 → (n - t) % n ≡ r
complement zero r n ht hr z =
    let e : r % n ≡ r = mod-eq_of_lt hr in ground (arith, mod_self n, ap (λ k. k % n) (zero-add r))
complement (suc t) r n ht hr z =
    let e : (n - suc t) % n ≡ n - suc t = mod-eq_of_lt (omega arith) in
    elim (Bool-cases (ltb (suc t + r) n)) [
      | inl l ↦ absurd (omega (arith, mod-eq_of_lt {n = suc t + r} {m = n} (ltb-lt _ _ l)))
      | inr g ↦
          let le : n ≤ suc t + r = ltb-ge (suc t + r) n g in
          omega (
            arith,
            e,
            mod-eq-sub-mod {n = suc t + r} {m = n} le,
            mod-eq_of_lt {n = suc t + r - n} {m = n} (omega arith),
          )
    ]

pub wrap_mod_unique :
    (i : ℤ) (n r a b : ℕ) → r < n → up i + a * n ≡ down i + r + b * n → wrap_mod i n ≡ r
wrap_mod_unique (pos x) n r a b h e =
    wrap_mod_pos x n (omega arith) ∙ residue_unique x r a b n h (omega arith)
wrap_mod_unique (negsuc x) n r a b h e =
    wrap_mod_negsuc x n (omega arith)
    ∙ complement (suc x % n) r n (mod-lt (suc x) (omega arith)) h
        (mod-add-mod (suc x) n r ∙ residue_zero (suc x + r) a b n (omega arith) (omega arith))

pub wrap_mod_exists :
    (i : ℤ) (n : ℕ) → 0 < n → (a : ℕ) × (b : ℕ) × (up i + a * n ≡ down i + wrap_mod i n + b * n)
wrap_mod_exists (pos x) n h = (0, x / n, rw (wrap_mod_pos x n h) (omega (arith, div-add-mod' x n)))
wrap_mod_exists (negsuc x) n h = elim (Bool-cases (suc x % n == 0)) [
  | inl z ↦ (
    suc x / n,
    0,
    rw (wrap_mod_negsuc x n h) (
        let q : suc x % n ≡ 0 = ground arith in
        omega
          (arith, div-add-mod' (suc x) n, q, ap (λ k. (n - k) % n) q, mod_self n, sub_zero_mod n)),
  )
  | inr z ↦ (
    suc (suc x / n),
    0,
    rw (wrap_mod_negsuc x n h) (
        let q : suc x % n ≢ 0 = ground arith in
        omega (
          arith,
          div-add-mod' (suc x) n,
          mod-lt (suc x) {m = n} h,
          mod-eq_of_lt {n = n - suc x % n} {m = n} (omega arith),
        )),
  )
]

-- What a sequence is above the first of its run.
gap : (seq lo : ℤ) → lo ≤ℤ seq → up seq + down lo ≡ up (seq -ℤ lo) + down seq + up lo
unfolding ◌-ℤ◌
gap seq lo h = ground arith

index_parts :
    (w : ℕ) (lo : ℤ)
    → up (pos (suc w) -ℤ pos 1 -ℤ lo) + up lo ≡ down (pos (suc w) -ℤ pos 1 -ℤ lo) + down lo + w
index_parts w lo = omega (arith, -ℤ_parts (pos (suc w)) (pos 1), -ℤ_parts (pos (suc w) -ℤ pos 1) lo)

add_gap : (seq lo : ℤ) → lo ≤ℤ seq → lo +ℤ pos (up (seq -ℤ lo)) ≡ seq
add_gap seq lo h =
    eq_of_parts (lo +ℤ pos (up (seq -ℤ lo))) seq
      (omega (arith, gap seq lo h, +ℤ_parts lo (pos (up (seq -ℤ lo)))))

gap-lt : (seq lo : ℤ) (n : ℕ) → lo ≤ℤ seq → seq <ℤ lo +ℤ pos n → up (seq -ℤ lo) < n
gap-lt seq lo n h l = omega (arith, gap seq lo h, +ℤ_parts lo (pos n))

-- Of the sequences that share a slot, the one in a run that begins at `lo` and is shorter than the
-- slot count.
pub wrap_mod_back :
    (seq lo : ℤ) (n : ℕ)
    → lo ≤ℤ seq
    → seq <ℤ lo +ℤ pos n
    → lo +ℤ pos (wrap_mod (pos (suc (wrap_mod seq n)) -ℤ pos 1 -ℤ lo) n) ≡ seq
wrap_mod_back seq lo n le lt =
    let l = gap-lt seq lo n le lt in
    let (a, b, e) = wrap_mod_exists seq n (omega arith) in
    ap (λ k. lo +ℤ pos k)
      (wrap_mod_unique (pos (suc (wrap_mod seq n)) -ℤ pos 1 -ℤ lo) n (up (seq -ℤ lo)) b a l
        (omega (arith, e, gap seq lo le, index_parts (wrap_mod seq n) lo)))
    ∙ add_gap seq lo le
