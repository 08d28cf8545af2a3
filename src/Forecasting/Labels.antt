-- ===== src/Forecasting/Labels.antt =====
-- `compute_forward_realized_vol` of forecasting/labels.py.
pub mod Stable
use Prim.Native.Nat.{zero as nat_zero}
use portfolio_engine.Prelude.{
  ℕ, suc, ◌+◌ as nat_add, Bool, List, [], ◌∷◌, map, take, drop, any, length, leb, if◌then◌else◌,
}
use portfolio_engine.Float.{Float, ◌*◌, ◌/◌, sqrt, log, is_nan, nan}
use portfolio_engine.Portfolio.Numpy.{Numpy}

-- `range(n)`, from `i` on.
unfoldable pub indices : ℕ → ℕ → List ℕ
indices i nat_zero = []
indices i (suc n) = i ∷ indices (suc i) n

module _ {F : Type 0} ⦃f : Float F⦄ where
  abbrev pub square : F → F
  square x = x * x

  -- The squares of `np.log(close / close.shift(1))`, after the first, for the close before.
  unfoldable pub squares_after : F → List F → List F
  squares_after previous [] = []
  squares_after previous (c ∷ closes) = square (log (c / previous)) ∷ squares_after c closes

  -- `shift` puts a NaN first.
  unfoldable pub squared_returns : List F → List F
  unfolding squares_after
  squared_returns [] = []
  squared_returns (c ∷ closes) = square (log (c / nan)) ∷ squares_after c closes

  module _ (np : Numpy F) where
    -- Entry `i` of the result: NaN where the loop does not come, or finds a NaN.
    unfoldable pub label_at : ℕ → List F → ℕ → F
    label_at window squared i =
        let forward_sq = take window (drop (suc i) squared) in
        if leb (suc (nat_add i window)) (length squared)
        then if any is_nan forward_sq then nan else sqrt (np.array_sum forward_sq)
        else nan

    unfoldable pub compute_forward_realized_vol : ℕ → List F → List F
    unfolding squared_returns indices label_at
    compute_forward_realized_vol window close =
        let squared = squared_returns close in
        map (label_at window squared) (indices 0 (length squared))
