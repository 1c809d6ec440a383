-- ===== src/Rand.antt =====
-- internal/rand/rand.go: the seeded source of randomness. SHA-256 is a parameter.
pub mod Stream
pub mod Restart
mod Tests
use mirror_cloud.Common.{
  ℕ, zero, suc, ◌+◌, ◌-◌, ◌*◌, ◌/◌, ◌%◌, ◌^◌, Bool, true, false, List, [], ◌∷◌, ◌++◌, take, drop,
  length, ltb, leb, ◌==◌, if◌then◌else◌,
}
use mirror_cloud.Bytes.{Bytes}

-- Seeded
pub record Seeded : Type 0 where
  pub ctr : ℕ
  pub seed : Bytes

-- The low `count` bytes of a number, the highest first: binary.BigEndian.PutUint64 for 8.
unfoldable pub big_endian : ℕ → ℕ → Bytes
big_endian zero n = []
big_endian (suc count) n = big_endian count (n / 256) ++ n % 256 ∷ []

-- binary.BigEndian.Uint64
unfoldable pub from_big_endian : ℕ → Bytes → ℕ
from_big_endian n [] = n
from_big_endian n (c ∷ s) = from_big_endian (n * 256 + c) s

-- Seeded.Position
unfoldable pub position : Seeded → ℕ
position s = s.ctr

-- Seeded.Resume
unfoldable pub resume : ℕ → Seeded → Seeded
resume at s = if ltb s.ctr at then record s { ctr = at } else s

hex_byte : ℕ → ℕ
hex_byte d = if ltb d 10 then d + 48 else d + 87

-- hex.EncodeToString and the verb %x.
unfoldable pub hex_encode : Bytes → Bytes
unfolding hex_byte
hex_encode [] = []
hex_encode (c ∷ s) = hex_byte (c / 16) ∷ hex_byte (c % 16) ∷ hex_encode s

-- b[6] and b[8] of a UUID, with the version and the variant set.
unfoldable pub stamp : ℕ → Bytes → Bytes
stamp i [] = []
stamp i (c ∷ s) =
    (if i == 6 then c % 16 + 64 else if i == 8 then c % 64 + 128 else c) ∷ stamp (suc i) s

abbrev pub part : ℕ → ℕ → Bytes → Bytes
part from to b = hex_encode (take (to - from) (drop from b))

-- A draw and what it answers.
pub data Draw : Type 0 where
  draw_intn draw_bytes draw_hex : ℕ → Draw
  draw_uuid : Draw

module _ (sha256 : Bytes → Bytes) where
  -- New
  unfoldable pub new_rand : Bytes → Seeded
  new_rand seed = record { ctr = 0; seed = sha256 seed }

  -- Seeded.next, with a counter of 64 bits.
  unfoldable pub next : Seeded → Bytes × Seeded
  unfolding big_endian
  next s =
      let ctr = suc s.ctr % 2 ^ 64 in (sha256 (s.seed ++ big_endian 8 ctr), record s { ctr = ctr })

  -- Seeded.Intn, for an n that is not negative.
  unfoldable pub intn : ℕ → Seeded → ℕ × Seeded
  unfolding next from_big_endian
  intn zero s = (0, s)
  intn (suc n) s = let (b, s') = next s in (from_big_endian 0 (take 8 b) % suc n, s')

  -- The loop of Seeded.Bytes: what it appends while `left` bytes are missing.
  unfoldable pub bytes_loop : ℕ → ℕ → Seeded → Bytes × Seeded
  unfolding next
  bytes_loop zero left s = ([], s)
  bytes_loop (suc fuel) left s =
      let (b, s') = next s in
      let (further, s'') = bytes_loop fuel (left - length b) s' in
      if ltb 0 left then (b ++ further, s'') else ([], s)

  -- Seeded.Bytes; a block has bytes, so n turns are enough.
  unfoldable pub draw_n : ℕ → Seeded → Bytes × Seeded
  unfolding bytes_loop
  draw_n n s = let (out, s') = bytes_loop n n s in (take n out, s')

  -- Seeded.Hex
  unfoldable pub hex : ℕ → Seeded → Bytes × Seeded
  unfolding draw_n hex_encode
  hex n s = let (b, s') = draw_n ((n + 1) / 2) s in (take n (hex_encode b), s')

  -- Seeded.UUID
  unfoldable pub uuid : Seeded → Bytes × Seeded
  unfolding draw_n stamp hex_encode
  uuid s =
      let (drawn, s') = draw_n 16 s in
      let b = stamp 0 drawn in
      (
        part 0 4 b
            ++ (45 ∷ part 4 6 b)
            ++ (45 ∷ part 6 8 b)
            ++ (45 ∷ part 8 10 b)
            ++ (45 ∷ part 10 16 b),
        s',
      )

  -- Seeded.Derive
  unfoldable pub derive : Bytes → Seeded → Seeded
  derive key s = record { ctr = 0; seed = sha256 (s.seed ++ key) }

  -- A draw's answer, a number standing for a list of one.
  unfoldable pub draw : Draw → Seeded → Bytes × Seeded
  unfolding intn draw_n hex uuid
  draw (draw_intn n) s = let (k, s') = intn n s in (k ∷ [], s')
  draw (draw_bytes n) s = draw_n n s
  draw (draw_hex n) s = hex n s
  draw draw_uuid s = uuid s

  unfoldable pub draws : List Draw → Seeded → List Bytes × Seeded
  unfolding draw
  draws [] s = ([], s)
  draws (d ∷ ds) s =
      let (a, s') = draw d s in let (further, s'') = draws ds s' in (a ∷ further, s'')
