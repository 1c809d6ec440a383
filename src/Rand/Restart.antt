-- ===== src/Rand/Restart.antt =====
-- A process that resumes at a position (internal/rand/rand.go).
use mirror_cloud.Common.{
  ◌+◌, ◌/◌, ℕ, zero, suc, ◌≡◌, refl, sym, ap, ◌∙◌, List, [], ◌∷◌, ltb, length, ◌-◌, arith,
  Bool-cases, inl, inr,
}
use mirror_cloud.Bytes.{Bytes}
use mirror_cloud.Rand.{
  Seeded, Draw, draw_intn, draw_bytes, draw_hex, draw_uuid, position, resume, new_rand, next, intn,
  bytes_loop, draw_n, hex, uuid, draw, draws,
}

module _ (sha256 : Bytes → Bytes) where
  seed-bytes_loop : (fuel left : ℕ) (s : Seeded) → (bytes_loop sha256 fuel left s).1.seed ≡ s.seed
  unfolding bytes_loop next
  seed-bytes_loop zero left s = refl
  seed-bytes_loop (suc fuel) left s = elim (Bool-cases (ltb 0 left)) [
    | inl t ↦ rw t (seed-bytes_loop fuel (left - length (next sha256 s).0) (next sha256 s).1)
    | inr f ↦ rw f
  ]

  seed-draw : (d : Draw) (s : Seeded) → (draw sha256 d s).1.seed ≡ s.seed
  unfolding draw intn next draw_n hex uuid
  seed-draw (draw_intn zero) s = refl
  seed-draw (draw_intn (suc n)) s = refl
  seed-draw (draw_bytes n) s = seed-bytes_loop n n s
  seed-draw (draw_hex n) s = seed-bytes_loop ((n + 1) / 2) ((n + 1) / 2) s
  seed-draw draw_uuid s = seed-bytes_loop 16 16 s

  seed-draws : (ds : List Draw) (s : Seeded) → (draws sha256 ds s).1.seed ≡ s.seed
  unfolding draws
  seed-draws [] s = refl
  seed-draws (d ∷ ds) s = seed-draws ds (draw sha256 d s).1 ∙ seed-draw d s

  resume_new :
      (seed : Bytes) (s : Seeded)
      → s.seed ≡ sha256 seed
      → resume (position s) (new_rand sha256 seed) ≡ s
  unfolding resume position new_rand
  resume_new seed s e = elim (Bool-cases (ltb 0 s.ctr)) [
    | inl t ↦ rw t (ap (λ k. record { ctr = s.ctr; seed = k }) (sym e))
    | inr f ↦
        let z : 0 ≡ s.ctr = ground arith in
        rw f (
          ap (λ k. record { ctr = 0; seed = k }) (sym e)
          ∙ ap (λ k. record { ctr = k; seed = s.seed }) z)
  ]

  -- A fresh source of the same seed that resumes at the position reached by any sequence of draws
  -- answers every further sequence of draws as the first source does.
  pub draws-resume :
      (seed : Bytes) (before after : List Draw)
      → draws sha256 after
          (resume (position (draws sha256 before (new_rand sha256 seed)).1) (new_rand sha256 seed))
        ≡ draws sha256 after (draws sha256 before (new_rand sha256 seed)).1
  draws-resume seed before after = ap (draws sha256 after) (
      resume_new seed (draws sha256 before (new_rand sha256 seed)).1
        (seed-draws before (new_rand sha256 seed) ∙ unfold new_rand in refl))
