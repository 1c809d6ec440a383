-- ===== src/Rand/Tests.antt =====
-- Draws with a hash that answers 32 bytes.
use mirror_cloud.Common.{ℕ, zero, suc, ◌+◌, ◌≡◌, [], ◌∷◌}
use mirror_cloud.Bytes.{Bytes, codes}
use mirror_cloud.Rand.{draw_intn, draw_bytes, draw_uuid, new_rand, position, resume, draws}
use mirror_cloud.Rand.Restart.{draws-resume}

-- 32 bytes made of the last of a text.
abbrev last_byte : Bytes → ℕ
last_byte [] = 0
last_byte (c ∷ []) = c
last_byte (c ∷ d ∷ s) = last_byte (d ∷ s)

abbrev filled : ℕ → ℕ → Bytes
filled zero c = []
filled (suc k) c = (c + k) ∷ filled k c

abbrev toy_hash : Bytes → Bytes
toy_hash s = filled 32 (last_byte s)

draws-resume_example :
    draws toy_hash (draw_uuid ∷ []) (
      resume
        (position
          (draws toy_hash (draw_intn 9 ∷ draw_bytes 40 ∷ []) (new_rand toy_hash (codes "a"))).1)
        (new_rand toy_hash (codes "a")))
    ≡ draws toy_hash
        (draw_uuid ∷ [])
        (draws toy_hash (draw_intn 9 ∷ draw_bytes 40 ∷ []) (new_rand toy_hash (codes "a"))).1
draws-resume_example =
    draws-resume toy_hash (codes "a") (draw_intn 9 ∷ draw_bytes 40 ∷ []) (draw_uuid ∷ [])
