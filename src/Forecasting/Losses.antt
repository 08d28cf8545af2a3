-- ===== src/Forecasting/Losses.antt =====
-- `write_rolling_model_metrics` of forecasting/db.py, and `_update_rolling_losses`.
pub mod Recent
use portfolio_engine.Prelude.{
  ℕ, zero, String, Bool, ◌&&◌, ◌||◌, Option, none, some, List, [], ◌∷◌, ◌++◌, map, take, length,
  ltb, str_eq, if◌then◌else◌,
}
use portfolio_engine.Float.{Float, ◌+◌, ◌-◌, ◌/◌, lit, pow, log}
use portfolio_engine.Database.{ForecastRow, MetricsRow, where_true, latest_first}
use portfolio_engine.Portfolio.Forecasts.{is_given}

-- What the query uses of SQL: AVG of at least one number, and GREATEST. Of a square of a number
-- that is too large PostgreSQL raises; such numbers are left out.
pub record Sql (F : Type 0) : Type 0 where
  pub avg : List F → F
  pub greatest : F → F → F

module _ {F : Type 0} where
  -- `symbol = symbol AND realized_vol IS NOT NULL`
  abbrev pub is_realized : String → ForecastRow F → Bool
  is_realized symbol r = str_eq r.symbol symbol && is_given r.realized_vol

  unfoldable pub recent : String → ℕ → List (ForecastRow F) → List (ForecastRow F)
  recent symbol window_points forecasts =
      take window_points (latest_first (λ r. r.time) (where_true (is_realized symbol) forecasts))

  -- `FILTER (WHERE vol IS NOT NULL)`: the realized and the predicted volatility.
  unfoldable pub pairs : (ForecastRow F → Option F) → List (ForecastRow F) → List (F × F)
  pairs vol [] = []
  pairs vol (r ∷ rows) =
      let rest = pairs vol rows in
      elim r.realized_vol [
        | none ↦ rest
        | some y ↦ elim (vol r) [ none ↦ rest | some p ↦ (y, p) ∷ rest ]
      ]

  -- AVG, which is NULL of nothing.
  abbrev pub average : Sql F → List F → Option F
  average sql [] = none
  average sql (x ∷ xs) = some (sql.avg (x ∷ xs))

module _ {F : Type 0} ⦃f : Float F⦄ (sql : Sql F) where
  abbrev pub squared_error : F × F → F
  squared_error (y, p) = pow (y - p) 2

  abbrev pub likelihood : F → F × F → F
  likelihood eps (y, p) =
      log (sql.greatest (pow p 2) eps) + sql.greatest (pow y 2) eps / sql.greatest (pow p 2) eps

  -- The row that is selected from `agg`.
  unfoldable pub metrics_of : ℕ → String → ℕ → F → List (ForecastRow F) → MetricsRow F
  unfolding pairs
  metrics_of now symbol window_points eps rows =
      let garch = pairs (λ r. r.garch_vol) rows in
      let xgb = pairs (λ r. r.xgb_vol) rows in
      record {
        time = now;
        symbol = symbol;
        garch_mse = average sql (map squared_error garch);
        garch_qlike = average sql (map (likelihood eps) garch);
        xgb_mse = average sql (map squared_error xgb);
        xgb_qlike = average sql (map (likelihood eps) xgb);
        garch_samples = length garch;
        xgb_samples = length xgb;
        window_points = window_points;
      }

  -- `now` is the database's clock.
  unfoldable pub write_rolling_model_metrics :
      ℕ → String → ℕ → F → List (ForecastRow F) → List (MetricsRow F) → List (MetricsRow F)
  unfolding recent metrics_of
  write_rolling_model_metrics now symbol window_points eps forecasts metrics =
      let row = metrics_of now symbol window_points eps (recent symbol window_points forecasts) in
      if ltb 0 row.garch_samples || ltb 0 row.xgb_samples then metrics ++ row ∷ [] else metrics

  unfoldable pub update_rolling_losses :
      ℕ → String → ℕ → List (ForecastRow F) → List (MetricsRow F) → List (MetricsRow F)
  unfolding write_rolling_model_metrics
  update_rolling_losses now symbol rolling_loss_points forecasts metrics =
      write_rolling_model_metrics now symbol rolling_loss_points (lit 1 12) forecasts metrics
