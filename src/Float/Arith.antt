-- ===== src/Float/Arith.antt =====
-- Go's + and - on float64: the exact sum rounded to 53 significant bits, ties to even. Overflow to
-- an infinity and the loss of bits below 2^-1074 are left out.
use mirror_cloud.Common.{
  ℕ, zero, suc, ◌+◌, ◌-◌, ◌*◌, ◌/◌, ◌%◌, ◌^◌, true, false, not, ◌&&◌, ◌||◌, ◌==◌, ltb,
  if◌then◌else◌,
}
use mirror_cloud.Common.Int.{up, down, diff}
use mirror_cloud.Float.{F64, finite, inf, nan}

bits_of : ℕ → ℕ → ℕ
bits_of zero n = 0
bits_of (suc fuel) n = let rest = bits_of fuel (n / 2) in if n == 0 then 0 else suc rest

-- The nearest number of 53 significant bits; a number has no more bits than its value.
unfoldable pub round_bits : ℕ → ℕ
unfolding bits_of
round_bits n =
    let unit = 2 ^ (bits_of n n - 53) in
    let q = n / unit in
    let r = n % unit in
    if ltb unit (2 * r) || (2 * r == unit && not (q % 2 == 0)) then (q + 1) * unit else q * unit

unfoldable pub negate_f64 : F64 → F64
negate_f64 (finite i e) = finite (diff (down i) (up i)) e
negate_f64 (inf b) = inf (not b)
negate_f64 nan = nan

unfoldable pub add_f64 : F64 → F64 → F64
unfolding round_bits
add_f64 (finite m d) (finite n e) =
    let sum = diff (2 ^ e * up m + 2 ^ d * up n) (2 ^ e * down m + 2 ^ d * down n) in
    finite (diff (round_bits (up sum)) (round_bits (down sum))) (d + e)
add_f64 nan _ = nan
add_f64 _ nan = nan
add_f64 (inf true) (inf false) = nan
add_f64 (inf false) (inf true) = nan
add_f64 (inf a) _ = inf a
add_f64 (finite _ _) (inf b) = inf b

unfoldable pub sub_f64 : F64 → F64 → F64
unfolding add_f64 negate_f64
sub_f64 a b = add_f64 a (negate_f64 b)
