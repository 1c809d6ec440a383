-- ===== src/Iam/Condition/IfExists.antt =====
-- The suffix IfExists of the operators of conditionsMatch
-- (internal/services/aws/iam/authorizer.go).
use mirror_cloud.Common.{
  ◌-◌, ◌≡◌, true, false, not, ◌||◌, ◌++◌, Option, is_some, arith, length, take-append_length,
  drop-append_length, length-append,
}
use mirror_cloud.Bytes.{Bytes, same, same_self}
use mirror_cloud.Bytes.Fold.{has_suffix, trim_suffix}
use mirror_cloud.GoMap.{GoMap}
use mirror_cloud.Json.{Json}
use mirror_cloud.Float.{F64}
use mirror_cloud.Iam.Policy.{condition_value}
use mirror_cloud.Iam.Condition.{entry_holds, if_exists, null_op}

length-difference : (s p : Bytes) → length (s ++ p) - length p ≡ length s
length-difference s p = omega (arith, length-append s p)

pub has_suffix-append : (s p : Bytes) → has_suffix p (s ++ p) ≡ true
unfolding has_suffix
has_suffix-append s p =
    rw (length-difference s p, drop-append_length s p, same_self p)
      (ground (arith, length-append s p))

trim_suffix-append : (s p : Bytes) → trim_suffix p (s ++ p) ≡ s
unfolding trim_suffix
trim_suffix-append s p = rw (has_suffix-append s p, length-difference s p, take-append_length s p)

trim_suffix-none : (p s : Bytes) → has_suffix p s ≡ false → trim_suffix p s ≡ s
unfolding trim_suffix
trim_suffix-none p s h = rw h

module _ (parse_float : Bytes → Option F64) where
  -- An operator that has no suffix IfExists and is not Null, with that suffix added, holds where
  -- the request has no value for the key, and otherwise exactly where the operator itself holds.
  pub entry_holds-if_exists :
      (request : GoMap Bytes) (op key : Bytes) (expected : Json)
      → has_suffix if_exists op ≡ false
      → same op null_op ≡ false
      → entry_holds parse_float request (op ++ if_exists) key expected ≡ (
          not (is_some (condition_value request key))
          || entry_holds parse_float request op key expected)
  unfolding entry_holds
  entry_holds-if_exists request op key expected h n =
      rw (trim_suffix-append op if_exists, trim_suffix-none if_exists op h)
        (ground (arith, has_suffix-append op if_exists))
