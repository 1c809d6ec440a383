-- ===== src/Float.antt =====
-- Go's float64, as the dyadic rational that it stands for, and the conversions to int64.
pub mod Arith
pub mod Compare
pub mod Exact
use mirror_cloud.Common.{
  ℕ, zero, suc, ◌==◌, ◌&&◌, ◌||◌, not, ◌+◌, ◌-◌, ◌*◌, ◌/◌, ◌%◌, ◌^◌, Bool, ltb, if◌then◌else◌,
}
use mirror_cloud.Common.Int.{ℤ, pos, negsuc, up, down, diff}

-- `finite n e` is n / 2 ^ e.
pub data F64 : Type 0 where
  finite : ℤ → ℕ → F64
  inf : Bool → F64
  nan : F64

-- The int64 that a machine word of this value holds.
unfoldable pub wrap64 : ℤ → ℤ
wrap64 i =
    let r = (up i % 2 ^ 64 + (2 ^ 64 - down i % 2 ^ 64)) % 2 ^ 64 in
    if ltb r (2 ^ 63) then pos r else diff r (2 ^ 64)

abbrev pub scale : ℕ → ℤ → ℤ
scale k i = diff (k * up i) (k * down i)

-- int64(f), which truncates towards zero; outside the range of int64 the language leaves the
-- result to the implementation, and this is what amd64 answers for infinities and NaN.
unfoldable pub trunc64 : F64 → ℤ
unfolding wrap64
trunc64 (finite n e) = wrap64 (diff (up n / 2 ^ e) (down n / 2 ^ e))
trunc64 _ = negsuc (2 ^ 63 - 1)

bits_upto : ℕ → ℕ → ℕ
bits_upto zero n = 0
bits_upto (suc fuel) n = let rest = bits_upto fuel (n / 2) in if n == 0 then 0 else suc rest

-- bits.Len64: the length of a 64-bit word in bits.
unfoldable pub bit_len : ℕ → ℕ
unfolding bits_upto
bit_len n = bits_upto 64 n

-- The nearest number of 53 significant bits, ties to even.
unfoldable pub round53 : ℕ → ℕ
unfolding bit_len
round53 n =
    let unit = 2 ^ (bit_len n - 53) in
    let q = n / unit in
    let r = n % unit in
    if ltb (unit / 2) r || (r == unit / 2 && not (q % 2 == 0)) && ltb 1 unit
    then (q + 1) * unit
    else q * unit

-- int64(float64(i)), for an int64 whose rounding is one too.
unfoldable pub through_f64 : ℤ → ℤ
unfolding round53
through_f64 i = diff (round53 (up i)) (round53 (down i))
