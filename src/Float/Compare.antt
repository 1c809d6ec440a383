-- ===== src/Float/Compare.antt =====
-- Go's comparisons of float64: a NaN is neither equal to a number nor less than one.
use mirror_cloud.Common.{◌+◌, ◌*◌, ◌^◌, Bool, true, false, not, ◌&&◌, ◌||◌, ◌==◌, ltb}
use mirror_cloud.Common.Int.{up, down}
use mirror_cloud.Float.{F64, finite, inf}

-- The numbers over one denominator.
unfoldable pub equal_f64 : F64 → F64 → Bool
equal_f64 (finite m d) (finite n e) = 2 ^ e * up m + 2 ^ d * down n == 2 ^ d * up n + 2 ^ e * down m
equal_f64 (inf true) (inf true) = true
equal_f64 (inf false) (inf false) = true
equal_f64 _ _ = false

-- `inf true` is the positive one.
unfoldable pub less_f64 : F64 → F64 → Bool
less_f64 (finite m d) (finite n e) =
    ltb (2 ^ e * up m + 2 ^ d * down n) (2 ^ d * up n + 2 ^ e * down m)
less_f64 (finite _ _) (inf b) = b
less_f64 (inf b) (finite _ _) = not b
less_f64 (inf a) (inf b) = not a && b
less_f64 _ _ = false

unfoldable pub less_eq_f64 : F64 → F64 → Bool
unfolding less_f64 equal_f64
less_eq_f64 a b = less_f64 a b || equal_f64 a b
