-- ===== src/Portfolio/Allocator/Cap.antt =====
-- What the projection does when no weight is free to move.
use mathlib.Core.Path.{ap₂}
use Prim.Native.Nat.{zero as nat_zero}
use portfolio_engine.Prelude.{
  ℕ, suc, ◌≡◌, refl, true, false, some, List, [], ◌∷◌, ◌++◌, map, length, replicate, All, arith,
  if-same,
}
use portfolio_engine.Float.{Float, IsIeee, IsFinite, ◌≼◌, ◌/◌, ◌+◌, ◌-◌, lit, lt, zero, one}
use portfolio_engine.Portfolio.Numpy.{Numpy, IsNumpy}
use portfolio_engine.Portfolio.Allocator.{
  is_free, free_count, clip_all, rounds, normalize, project_weights,
}

module _ {F : Type 0} ⦃f : Float F⦄ (np : Numpy F) (laws : IsIeee F) (np_laws : IsNumpy F np)
    (cap : F) (cap_finite : IsFinite cap) (cap_pos : lt zero cap ≡ true) where
  open laws use {
    le_of_lt, zero-div, div_self, not_lt_of_le, not_le_of_lt, add_nonneg, lit_nonneg, sub_le,
  }
  open np_laws use {array_sum_single, clip_above, clip_below}

  abbrev corner : ℕ → ℕ → F → List F
  corner m n x = replicate m zero ++ x ∷ replicate n zero

  -- One weight at or over the cap, `m` before it and `n` after it at or under 0.
  abbrev pub IsLopsided : List F → F → List F → Type 0
  IsLopsided before x after = All (λ y. y ≼ zero) before × (cap ≼ x) × All (λ y. y ≼ zero) after

  clip_all-after :
      (ys : List F) → All (λ y. y ≼ zero) ys → clip_all np cap ys ≡ replicate (length ys) zero
  unfolding clip_all
  clip_all-after [] h = refl
  clip_all-after (y ∷ ys) h =
      ap₂ ◌∷◌ (clip_below y zero cap (le_of_lt _ _ cap_pos) h.0) (clip_all-after ys h.1)

  clip_all-corner :
      (before : List F) (x : F) (after : List F)
      → IsLopsided before x after
      → clip_all np cap (before ++ x ∷ after) ≡ corner (length before) (length after) cap
  unfolding clip_all
  clip_all-corner [] x after h =
      ap₂ ◌∷◌ (clip_above x zero cap (le_of_lt _ _ cap_pos) h.1) (clip_all-after after h.2)
  clip_all-corner (b ∷ before) x after h =
      ap₂ ◌∷◌ (clip_below b zero cap (le_of_lt _ _ cap_pos) h.0.0)
        (clip_all-corner before x after (h.0.1, h.1, h.2))

  map-zeros : (n : ℕ) → map (λ x. x / cap) (replicate n zero) ≡ replicate n zero
  map-zeros nat_zero = refl
  map-zeros (suc n) = ap₂ ◌∷◌ (zero-div cap cap_finite cap_pos) (map-zeros n)

  map-corner : (m n : ℕ) → map (λ x. x / cap) (corner m n cap) ≡ corner m n one
  map-corner nat_zero n = ap₂ ◌∷◌ (div_self cap cap_finite cap_pos) (map-zeros n)
  map-corner (suc m) n = ap₂ ◌∷◌ (zero-div cap cap_finite cap_pos) (map-corner m n)

  -- Neither 0 nor the cap is free to move.
  is_free-zero : is_free cap zero ≡ false
  is_free-zero = ground (
    arith,
    not_lt_of_le zero (zero + lit 1 12) (add_nonneg _ _ (lit_nonneg 0 0) (lit_nonneg 1 12)),
  )

  is_free-cap : is_free cap cap ≡ false
  is_free-cap = ground (
    arith,
    not_lt_of_le (cap - lit 1 12) cap (sub_le cap (lit 1 12) cap_finite (lit_nonneg 1 12)),
  )

  free_count-zeros : (n : ℕ) → free_count cap (replicate n zero) ≡ 0
  unfolding free_count
  free_count-zeros nat_zero = refl
  free_count-zeros (suc n) = rw (is_free-zero, free_count-zeros n)

  free_count-corner : (m n : ℕ) → free_count cap (corner m n cap) ≡ 0
  unfolding free_count
  free_count-corner nat_zero n = rw (is_free-cap, free_count-zeros n)
  free_count-corner (suc m) n = rw (is_free-zero, free_count-corner m n)

  rounds-corner : (k m n : ℕ) → rounds np k cap (corner m n cap) ≡ corner m n cap
  unfolding rounds
  rounds-corner nat_zero m n = refl
  rounds-corner (suc k) m n = rw (free_count-corner m n) (if-same _ (corner m n cap))

  -- Under the laws of IEEE 754 and of numpy: if the cap is finite and positive and not close to
  -- 1, and one weight is at or over it and every other one at or under 0, the projection gives
  -- that weight 1 and every other one 0.
  pub project_weights-corner :
      (before : List F) (x : F) (after : List F) (max_iter : ℕ)
      → IsLopsided before x after
      → np.isclose cap one ≡ false
      → project_weights np (before ++ x ∷ after) cap max_iter
        ≡ some (corner (length before) (length after) one)
  unfolding project_weights normalize
  project_weights-corner before x after max_iter h far =
      let m = length before in
      let n = length after in
      let total : np.array_sum (corner m n cap) ≡ cap = array_sum_single m n cap cap_finite in
      rw (
        clip_all-corner before x after h,
        total,
        far,
        rounds-corner max_iter m n,
        total,
        not_le_of_lt _ _ cap_pos,
        map-corner m n,
      )
