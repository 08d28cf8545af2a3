-- ===== src/Portfolio/Allocator/InverseVol.antt =====
-- `inverse_vol_weights` copes with any volatilities, NaN, zero and negative ones included.
use portfolio_engine.Prelude.{
  ℕ, ◌≤◌, ◌<◌, ◌^◌, ◌≡◌, refl, ◌∙◌, Option, some, List, [], ◌∷◌, map, length, length-map, All,
  All-imp, All-map, arith, if-case, ◌>>=◌, ap,
}
use portfolio_engine.Float.{Float, IsIeee, IsFinite, ◌≼◌, ◌/◌, lit, lt, zero, one}
use portfolio_engine.Portfolio.Numpy.{Numpy, IsNumpy}
use portfolio_engine.Portfolio.Allocator.{raw_weights, project_weights, safe, inverse_vol_weights}
use portfolio_engine.Portfolio.Allocator.Projection.{
  IsLongOnly, equal_weights-IsLongOnly, project_weights-IsLongOnly,
}

module _ {F : Type 0} ⦃f : Float F⦄ (np : Numpy F) (laws : IsIeee F) (np_laws : IsNumpy F np)
    (cap : F) (cap_finite : IsFinite cap) (cap_nonneg : zero ≼ cap) where
  open laws use {
    le_numbers, le_of_lt, le_refl, lit_nonneg, lit_finite, lit_pos, div_nonneg, recip_finite,
    lt_of_lt_of_le, finite_number,
  }
  open np_laws use {array_sum_nonneg}

  abbrev IsPositive : F → Type 0
  IsPositive x = IsFinite x × (zero ≼ x)

  safe_ge : (x : F) → lit 1 12 ≼ safe x
  safe_ge x =
      if-case {A = F} (λ y. lit 1 12 ≼ y) _ (le_of_lt _ _)
        (λ _. le_refl _ (finite_number _ (lit_finite 1 12 (omega arith))))

  inverse_nonneg : (x : F) → IsPositive (one / safe x)
  inverse_nonneg x = (
    recip_finite _ (safe_ge x),
    div_nonneg _ _ (lit_finite 1 0 (omega arith)) (lit_nonneg 1 0)
        (lt_of_lt_of_le _ _ _ (lit_pos 1 12 (omega arith) (omega arith)) (safe_ge x)),
  )

  inverses : (vols : List F) → All IsPositive (map (λ x. one / safe x) vols)
  inverses [] = tt
  inverses (x ∷ vols) = (inverse_nonneg x, inverses vols)

  abbrev Raw : ℕ → Option (List F) → Type 0
  Raw n o = (raw : List F) × (o ≡ some raw) × IsLongOnly n raw

  raw_weights-IsLongOnly :
      (inv : List F)
      → 0 < length inv
      → length inv ≤ 2 ^ 53
      → All IsPositive inv
      → Raw (length inv) (raw_weights np inv)
  unfolding raw_weights
  raw_weights-IsLongOnly inv p l h =
      if-case (Raw (length inv)) (lt zero (np.array_sum inv))
        (λ positive. (
          map (λ x. x / np.array_sum inv) inv,
          refl,
          (
            length-map _ inv,
            All-map _ (λ x. x / np.array_sum inv) inv
                (All-imp inv (λ x q. div_nonneg _ _ q.0 q.1 positive) h),
          ),
        ))
        λ _. equal_weights-IsLongOnly np laws np_laws cap cap_finite cap_nonneg (length inv) p l

  -- Under the laws of IEEE 754 and of numpy, with a finite cap of at least 0: from 1 to 2 ^ 53
  -- volatilities, whatever they are (NaN, 0 and negative ones too), give as many weights, each at
  -- least 0 and not NaN.
  pub inverse_vol_weights-IsLongOnly :
      (vols : List F)
      → 0 < length vols
      → length vols ≤ 2 ^ 53
      → (w : List F) × (inverse_vol_weights np vols cap ≡ some w) × IsLongOnly (length vols) w
  unfolding inverse_vol_weights
  inverse_vol_weights-IsLongOnly vols p l =
      let same : length (map (λ x. one / safe x) vols) ≡ length vols = length-map _ vols in
      let (raw, done, (n, q)) =
        raw_weights-IsLongOnly (map (λ x. one / safe x) vols) (omega arith) (omega arith)
          (inverses vols) in
      let (w, e, (m, r)) =
        project_weights-IsLongOnly np laws np_laws cap cap_finite cap_nonneg raw 200 (omega arith)
          (omega arith) (All-imp raw (λ x k. (le_numbers _ _ k).1) q) in
      (w, ap (λ o. o >>= (λ x. project_weights np x cap 200)) done ∙ e, (m ∙ n ∙ same, r))
