-- ===== src/Portfolio/Allocator.antt =====
-- portfolio_engine/allocator.py: the projection onto the capped simplex, and what is built on it.
-- `none` is the ZeroDivisionError of `1.0 / n` at an empty array.
pub mod Projection
pub mod InverseVol
pub mod Cap
pub mod NoShort
use Prim.Native.Nat.{zero as nat_zero}
use portfolio_engine.Prelude.{
  ℕ, suc, String, Bool, true, false, ◌&&◌, Option, none, some, List, [], ◌∷◌, map, length,
  replicate, ◌==◌, ◌>>=◌, if◌then◌else◌,
}
use portfolio_engine.Float.{Float, ◌+◌, ◌-◌, ◌*◌, ◌/◌, lit, abs, sqrt, pow, lt, le, zero, one, max}
use portfolio_engine.Dict.{Dict, lookup}
use portfolio_engine.Portfolio.Numpy.{Numpy}

-- An entry of the dictionary of `fetch_latest_forecasts`.
pub record Forecast (F : Type 0) : Type 0 where
  pub time : ℕ
  pub garch_vol : Option F
  pub xgb_vol : Option F

module _ {F : Type 0} ⦃f : Float F⦄ where
  abbrev pub is_free : F → F → Bool
  is_free cap x = lt (zero + lit 1 12) x && lt x (cap - lit 1 12)

  unfoldable pub free_count : F → List F → ℕ
  free_count cap [] = 0
  free_count cap (x ∷ v) = let n = free_count cap v in if is_free cap x then suc n else n

  unfoldable pub equal_weights : ℕ → Option (List F)
  equal_weights n = if n == 0 then none else some (replicate n (one / lit n 0))

  abbrev pub safe : F → F
  safe x = if lt (lit 1 12) x then x else lit 1 12

  unfoldable pub zip_with : (F → F → F) → List F → List F → List F
  zip_with g (x ∷ xs) (y ∷ ys) = g x y ∷ zip_with g xs ys
  zip_with g _ _ = []

module _ {F : Type 0} ⦃f : Float F⦄ (np : Numpy F) where
  open np use {array_sum, isclose, clip, dot, matvec}

  unfoldable pub clip_all : F → List F → List F
  clip_all cap = map (λ x. clip x zero cap)

  -- `v[free] += delta`, and the clip.
  unfoldable pub shift_free : F → F → List F → List F
  shift_free cap delta = map (λ x. clip (if is_free cap x then x + delta else x) zero cap)

  -- The loop, with the rounds that are left; a `break` keeps `v`.
  unfoldable pub rounds : ℕ → F → List F → List F
  unfolding free_count shift_free
  rounds nat_zero cap v = v
  rounds (suc k) cap v =
      let diff = one - array_sum v in
      let count = free_count cap v in
      let rest = rounds k cap (shift_free cap (diff / lit count 0) v) in
      if lt (abs diff) (lit 1 10) then v else if count == 0 then v else rest

  -- After the loop: the division by the total.
  unfoldable pub normalize : List F → Option (List F)
  unfolding equal_weights
  normalize v =
      let total = array_sum v in
      if le total zero then equal_weights (length v) else some (map (λ x. x / total) v)

  unfoldable pub project_weights : List F → F → ℕ → Option (List F)
  unfolding clip_all rounds normalize
  project_weights weights cap max_iter =
      let v = clip_all cap weights in
      if isclose (array_sum v) one then some v else normalize (rounds max_iter cap v)

  unfoldable pub raw_weights : List F → Option (List F)
  unfolding equal_weights
  raw_weights inv =
      let total = array_sum inv in
      if lt zero total then some (map (λ x. x / total) inv) else equal_weights (length inv)

  unfoldable pub inverse_vol_weights : List F → F → Option (List F)
  unfolding project_weights raw_weights
  inverse_vol_weights vols cap = do
    raw ← raw_weights (map (λ x. one / safe x) vols)
    project_weights raw cap 200

  -- One round of the optimiser: the gradient step, and the projection.
  unfoldable pub ascent : List F → List (List F) → F → F → List F → Option (List F)
  unfolding project_weights zip_with
  ascent mu cov cap step_size weights =
      let cov_w = matvec cov weights in
      let variance = max (dot weights cov_w) (lit 1 16) in
      let sigma = sqrt variance in
      let numerator = dot mu weights in
      let grad = zip_with (λ m c. m / sigma - numerator / pow sigma 3 * c) mu cov_w in
      project_weights (zip_with (λ w g. w + step_size * g) weights grad) cap 200

  unfoldable pub ascents : ℕ → List F → List (List F) → F → F → List F → Option (List F)
  unfolding ascent
  ascents nat_zero mu cov cap step_size weights = some weights
  ascents (suc k) mu cov cap step_size weights =
      ascent mu cov cap step_size weights >>= ascents k mu cov cap step_size

  unfoldable pub optimize_sharpe_proxy : List F → List (List F) → F → ℕ → F → Option (List F)
  unfolding ascents
  optimize_sharpe_proxy [] cov cap max_iters step_size = some []
  optimize_sharpe_proxy (m ∷ mu) cov cap max_iters step_size =
      let n = length (m ∷ mu) in
      ascents max_iters (m ∷ mu) cov cap step_size (replicate n (one / lit n 0))

  unfoldable pub portfolio_volatility : List F → List (List F) → F
  portfolio_volatility weights cov = sqrt (max (dot weights (matvec cov weights)) zero)

  unfoldable pub sharpe_proxy : List F → List F → List (List F) → F
  unfolding portfolio_volatility
  sharpe_proxy weights mu cov =
      let vol = portfolio_volatility weights cov in
      if le vol (lit 1 12) then zero else dot mu weights / vol

module _ {F : Type 0} ⦃f : Float F⦄ where
  abbrev pub target_vol : Option F → Option F → F
  target_vol (some garch) (some xgb) = (garch + xgb) / lit 2 0
  target_vol none (some xgb) = xgb
  target_vol (some garch) none = garch
  target_vol none none = zero

  -- A symbol with no entry has neither forecast: `forecasts.get(symbol) or {}`.
  abbrev pub forecast_vol : Option (Forecast F) → F
  forecast_vol none = zero
  forecast_vol (some row) = target_vol row.garch_vol row.xgb_vol

  unfoldable pub choose_target_vols : Dict (Forecast F) → List String → List F
  choose_target_vols forecasts = map (λ s. forecast_vol (lookup s forecasts))
