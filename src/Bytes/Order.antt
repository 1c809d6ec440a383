-- ===== src/Bytes/Order.antt =====
-- `less` is a strict total order.
use mirror_cloud.Common.{◌≡◌, refl, true, false, [], ◌∷◌, arith}
use mirror_cloud.Bytes.{Bytes, less}

pub less_irrefl : (s : Bytes) → less s s ≡ false
unfolding less
less_irrefl [] = refl
less_irrefl (a ∷ s) = ground (arith, less_irrefl s)

pub less_trans : (s t u : Bytes) → less s t ≡ true → less t u ≡ true → less s u ≡ true
unfolding less
less_trans [] [] u h k = cc
less_trans [] (b ∷ t) [] h k = cc
less_trans [] (b ∷ t) (c ∷ u) h k = refl
less_trans (a ∷ s) [] u h k = cc
less_trans (a ∷ s) (b ∷ t) [] h k = cc
less_trans (a ∷ s) (b ∷ t) (c ∷ u) h k = ground (arith, less_trans s t u)

pub less_asymm : (s t : Bytes) → less s t ≡ true → less t s ≡ false
unfolding less
less_asymm [] [] h = cc
less_asymm [] (b ∷ t) h = refl
less_asymm (a ∷ s) [] h = cc
less_asymm (a ∷ s) (b ∷ t) h = ground (arith, less_asymm s t)

pub less_total : (s t : Bytes) → less s t ≡ false → less t s ≡ false → s ≡ t
unfolding less
less_total [] [] h k = refl
less_total [] (b ∷ t) h k = cc
less_total (a ∷ s) [] h k = cc
less_total (a ∷ s) (b ∷ t) h k = ground (arith, less_total s t)
