-- ===== src/Rand/Stream.antt =====
-- How many bytes Seeded.Bytes draws (internal/rand/rand.go).
use mirror_cloud.Common.{
  ◌/◌, ℕ, zero, suc, ◌+◌, ◌-◌, ◌≡◌, ◌≤◌, [], ◌∷◌, ltb, length, length-append, length-take, arith,
  Bool-cases, inl, inr,
}
use mirror_cloud.Bytes.{Bytes}
use mirror_cloud.Rand.{Seeded, next, bytes_loop, draw_n, hex, hex_encode}

length-hex_encode : (s : Bytes) → length (hex_encode s) ≡ length s + length s
unfolding hex_encode
length-hex_encode [] = omega arith
length-hex_encode (c ∷ s) = omega (arith, length-hex_encode s)

-- The hash has 32 bytes.
module _ (sha256 : Bytes → Bytes) (block : (s : Bytes) → length (sha256 s) ≡ 32) where
  length-next : (s : Seeded) → length (next sha256 s).0 ≡ 32
  unfolding next
  length-next s = block _

  length-bytes_loop :
      (fuel left : ℕ) (s : Seeded) → left ≤ fuel → left ≤ length (bytes_loop sha256 fuel left s).0
  unfolding bytes_loop
  length-bytes_loop zero left s h = h
  length-bytes_loop (suc fuel) left s h = elim (Bool-cases (ltb 0 left)) [
    | inl t ↦
        let (b, s') = next sha256 s in
        let n : length b ≡ 32 = length-next s in
        let further = length-bytes_loop fuel (left - length b) s' (omega arith) in
        rw t (omega (arith, length-append b (bytes_loop sha256 fuel (left - length b) s').0))
    | inr f ↦ rw f (ground arith)
  ]

  length-draw_n : (n : ℕ) (s : Seeded) → length (draw_n sha256 n s).0 ≡ n
  unfolding draw_n
  length-draw_n n s =
      omega
        (arith, length-take n (bytes_loop sha256 n n s).0, length-bytes_loop n n s (omega arith))

  length-hex : (n : ℕ) (s : Seeded) → length (hex sha256 n s).0 ≡ n
  unfolding hex
  length-hex n s =
      let b = (draw_n sha256 ((n + 1) / 2) s).0 in
      omega
        (arith, length-take n (hex_encode b), length-hex_encode b, length-draw_n ((n + 1) / 2) s)

  -- Where the hash answers 32 bytes, the loop of `Bytes` ends within the turns of the model:
  -- `Bytes` and `Hex` answer as many bytes as they were asked for.
  pub draw_n_total :
      (n : ℕ) (s : Seeded) → (length (draw_n sha256 n s).0 ≡ n) × (length (hex sha256 n s).0 ≡ n)
  draw_n_total n s = (length-draw_n n s, length-hex n s)
