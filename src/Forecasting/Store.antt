-- ===== src/Forecasting/Store.antt =====
-- The queries of forecasting/db.py that inference uses, on the tables as lists of rows.
pub mod Changes
use portfolio_engine.Prelude.{
  ℕ, ◌+◌, ◌*◌, String, Bool, true, false, not, ◌&&◌, ◌||◌, Option, none, some, List, [], ◌∷◌, map,
  take, any, leb, ◌==◌, str_eq, if◌then◌else◌,
}
use portfolio_engine.Database.{
  PriceRow, FeatureRow, ForecastRow, where_true, order_by_time, insert_new, pair_key,
}
use portfolio_engine.Portfolio.Schedule.{minute}
use portfolio_engine.Portfolio.Forecasts.{is_given}

module _ {F : Type 0} where
  -- The primary key of `forecasts`.
  abbrev pub forecast_key : ForecastRow F → String × ℕ
  forecast_key r = (r.symbol, r.time)

  abbrev pub is_at : String → ℕ → ForecastRow F → Bool
  is_at symbol time r = str_eq r.symbol symbol && r.time == time

  -- `LEFT JOIN forecasts … WHERE f.symbol = symbol AND fc.time IS NULL`
  abbrev pub is_unforecasted : List (ForecastRow F) → String → FeatureRow F → Bool
  is_unforecasted forecasts symbol r =
      str_eq r.symbol symbol && not (any (is_at r.symbol r.time) forecasts)

  unfoldable pub fetch_unforecasted_features :
      List (FeatureRow F) → List (ForecastRow F) → String → (limit : ℕ) → List (FeatureRow F)
  fetch_unforecasted_features features forecasts symbol limit =
      take limit
        (order_by_time (λ r. r.time) (where_true (is_unforecasted forecasts symbol) features))

  -- One row after the other, as `executemany` does.
  unfoldable pub insert_forecasts :
      List (ForecastRow F) → List (ForecastRow F) → List (ForecastRow F)
  insert_forecasts [] forecasts = forecasts
  insert_forecasts (r ∷ rows) forecasts =
      insert_forecasts rows (insert_new forecast_key r forecasts)

  abbrev pub is_missing_realized : ℕ → String → ℕ → ForecastRow F → Bool
  is_missing_realized now symbol forward_window r =
      str_eq r.symbol symbol
      && not (is_given r.realized_vol)
      && leb (r.time + forward_window * minute) now

  -- `now` is the database's clock.
  unfoldable pub fetch_forecasts_missing_realized :
      ℕ → List (ForecastRow F) → String → (forward_window : ℕ) → List ℕ
  fetch_forecasts_missing_realized now forecasts symbol forward_window =
      map (λ r. r.time)
        (order_by_time (λ r. r.time)
          (where_true (is_missing_realized now symbol forward_window) forecasts))

  unfoldable pub fetch_prices_since :
      List (PriceRow F) → String → (start_time : ℕ) → List (PriceRow F)
  fetch_prices_since prices symbol start_time =
      order_by_time (λ r. r.time)
        (where_true (λ r. str_eq r.symbol symbol && leb start_time r.time) prices)

  -- `UPDATE forecasts SET realized_vol = value WHERE time = ts AND symbol = symbol`
  unfoldable pub update_one : F → ℕ → String → List (ForecastRow F) → List (ForecastRow F)
  update_one value ts symbol =
      map (λ r. if is_at symbol ts r then record r { realized_vol = some value } else r)

  unfoldable pub update_realized_vol :
      List (F × ℕ × String) → List (ForecastRow F) → List (ForecastRow F)
  unfolding update_one
  update_realized_vol [] forecasts = forecasts
  update_realized_vol ((value, ts, symbol) ∷ rows) forecasts =
      update_realized_vol rows (update_one value ts symbol forecasts)
