-- ===== src/Float/Exact.antt =====
-- An integer of 53 bits is a float64 exactly.
use native.Mathlib.Nat.{pow-suc, div-one, mod-one}
use mirror_cloud.Common.{ℕ, zero, suc, ◌+◌, ◌-◌, ◌/◌, ◌^◌, ◌≤◌, ◌<◌, ◌≡◌, arith}
use mirror_cloud.Common.Int.{ℤ, pos, negsuc, up, down}
use mirror_cloud.Float.{bits_upto, bit_len, round53, through_f64}

bits_upto-le : (fuel k n : ℕ) → n < 2 ^ k → bits_upto fuel n ≤ k
unfolding bits_upto
bits_upto-le zero k n h = omega arith
bits_upto-le (suc fuel) zero n h = ground arith
bits_upto-le (suc fuel) (suc k) n h =
    let half : n / 2 < 2 ^ k = omega (arith, pow-suc 2 k) in
    ground (arith, bits_upto-le fuel k (n / 2) half)

pub bit_len-le : (k n : ℕ) → n < 2 ^ k → bit_len n ≤ k
unfolding bit_len
bit_len-le k n h = bits_upto-le 64 k n h

round53_exact : (n : ℕ) → n < 2 ^ 53 → round53 n ≡ n
unfolding round53
round53_exact n h =
    let short : bit_len n - 53 ≡ 0 = omega (arith, bit_len-le 53 n h) in
    rw short (ground (arith, div-one n, mod-one n))

pub through_f64_exact : (i : ℤ) → up i + down i < 2 ^ 53 → through_f64 i ≡ i
unfolding through_f64
through_f64_exact (pos n) h = rw (round53_exact n (omega arith)) (ground arith)
through_f64_exact (negsuc n) h = rw (round53_exact (suc n) (omega arith)) (ground arith)
