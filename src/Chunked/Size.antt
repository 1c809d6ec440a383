-- ===== src/Chunked/Size.antt =====
-- strconv.ParseInt of base 16, as internal/edge/chunked.go uses it.
use mirror_cloud.Common.{
  ℕ, ◌+◌, ◌-◌, ◌*◌, ◌^◌, ◌&&◌, ◌||◌, [], ◌∷◌, Option, none, some, ◌==◌, leb, if◌then◌else◌,
}
use mirror_cloud.Common.Int.{ℤ, pos, diff, up, down}
use mirror_cloud.Bytes.{Bytes}

abbrev pub hex_digit : ℕ → Option ℕ
hex_digit c =
    if leb 48 c && leb c 57
    then some (c - 48)
    else if leb 97 c && leb c 102
    then some (c - 87)
    else if leb 65 c && leb c 70
    then some (c - 55)
    else none

hex_from : ℕ → Bytes → Option ℕ
hex_from n [] = some n
hex_from n (c ∷ s) = elim (hex_digit c) [ none ↦ none | some d ↦ hex_from (16 * n + d) s ]

hex_digits : Bytes → Option ℕ
unfolding hex_from
hex_digits [] = none
hex_digits (c ∷ s) = hex_from 0 (c ∷ s)

-- An int64 or out of range.
in_int64 : ℤ → Option ℤ
in_int64 i = if leb (2 ^ 63) (up i) || leb (2 ^ 63 + 1) (down i) then none else some i

option_bind : Option ℕ → (ℕ → Option ℤ) → Option ℤ
option_bind none f = none
option_bind (some n) f = f n

-- strconv.ParseInt(s, 16, 64)
unfoldable pub parse_int16 : Bytes → Option ℤ
unfolding hex_digits in_int64 option_bind
parse_int16 [] = none
parse_int16 (c ∷ s) =
    if c == 45
    then option_bind (hex_digits s) (λ n. in_int64 (diff 0 n))
    else if c == 43
    then option_bind (hex_digits s) (λ n. in_int64 (pos n))
    else option_bind (hex_digits (c ∷ s)) (λ n. in_int64 (pos n))
