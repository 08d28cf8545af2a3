-- ===== src/Forecasting/Inference.antt =====
-- forecasting/inference.py: `run_inference` and `_backfill_realized_vol`.
pub mod Keeps
pub mod Stall
use portfolio_engine.Prelude.{
  ℕ, ◌-◌, String, Bool, true, false, not, ◌&&◌, Option, none, some, List, [], ◌∷◌, ◌++◌, map, all,
  replicate, length, ◌==◌, if◌then◌else◌,
}
use portfolio_engine.Float.{Float, is_nan}
use portfolio_engine.Dict.{Dict, lookup}
use portfolio_engine.Database.{PriceRow, FeatureRow, ForecastRow, MetricsRow, where_true}
use portfolio_engine.Portfolio.Numpy.{Numpy}
use portfolio_engine.Portfolio.Schedule.{minute}
use portfolio_engine.Forecasting.Labels.{compute_forward_realized_vol}
use portfolio_engine.Forecasting.Losses.{Sql, update_rolling_losses}
use portfolio_engine.Forecasting.Store.{
  fetch_unforecasted_features, insert_forecasts, fetch_forecasts_missing_realized,
  fetch_prices_since, update_realized_vol,
}

-- The entry of a symbol in `models`; a prediction that is `none` has raised. The columns are among
-- those that the query selects.
pub record Bundle (F : Type 0) : Type 0 where
  pub garch_predict : Option F
  pub xgb_predict : List (FeatureRow F) → Option (List F)
  pub feature_cols : List String

-- The tables that inference reads and writes, with the database's clock.
pub record Tables (F : Type 0) : Type 0 where
  pub now : ℕ
  pub prices : List (PriceRow F)
  pub features : List (FeatureRow F)
  pub forecasts : List (ForecastRow F)
  pub metrics : List (MetricsRow F)

module _ {F : Type 0} ⦃f : Float F⦄ where
  -- `notna()` of an entry.
  abbrev pub is_known : Option (Option F) → Bool
  is_known (some (some x)) = not (is_nan x)
  is_known _ = false

  -- `X.notna().all(axis=1)` at a row.
  abbrev pub is_valid : List String → FeatureRow F → Bool
  is_valid feature_cols r = all (λ c. is_known (lookup c r.values)) feature_cols

  abbrev pub xgb_preds : Option (List F) → ℕ → List (Option F)
  xgb_preds none n = replicate n none
  xgb_preds (some raw) n = map some raw

  -- The loop over `zip(valid_df.iterrows(), xgb_preds)`.
  unfoldable pub preds :
      String → Option F → List (FeatureRow F) → List (Option F) → List (ForecastRow F)
  preds symbol garch_vol (r ∷ rows) (xgb_vol ∷ vols) =
      record {
        time = r.time;
        symbol = symbol;
        garch_vol = garch_vol;
        xgb_vol = xgb_vol;
        realized_vol = none;
      }
      ∷ preds symbol garch_vol rows vols
  preds symbol garch_vol _ _ = []

  -- `rv_by_time.get(ts)`: of entries at one time the last counts.
  unfoldable pub value_at : ℕ → List (PriceRow F) → List F → Option F
  value_at ts (r ∷ rows) (v ∷ values) =
      let rest = value_at ts rows values in
      elim rest [ some w ↦ some w | none ↦ if r.time == ts then some v else none ]
  value_at ts _ _ = none

  abbrev pub update_of : ℕ → String → Option F → List (F × ℕ × String)
  update_of ts symbol none = []
  update_of ts symbol (some value) = if is_nan value then [] else (value, ts, symbol) ∷ []

  unfoldable pub updates_of : String → List (PriceRow F) → List F → List ℕ → List (F × ℕ × String)
  unfolding value_at
  updates_of symbol prices values [] = []
  updates_of symbol prices values (ts ∷ missing_times) =
      update_of ts symbol (value_at ts prices values)
      ++ updates_of symbol prices values missing_times

  -- Without a valid row, and so without any row, nothing is predicted.
  unfoldable pub predict : String → Bundle F → List (FeatureRow F) → List (ForecastRow F)
  unfolding preds
  predict symbol bundle [] = []
  predict symbol bundle (r ∷ valid) =
      preds symbol bundle.garch_predict (r ∷ valid)
        (xgb_preds (bundle.xgb_predict (r ∷ valid)) (length (r ∷ valid)))

  -- The rows that are inserted for a symbol.
  unfoldable pub new_forecasts : String → Bundle F → Tables F → List (ForecastRow F)
  unfolding predict
  new_forecasts symbol bundle t =
      let df = fetch_unforecasted_features t.features t.forecasts symbol 5000 in
      let valid = where_true (is_valid bundle.feature_cols) df in predict symbol bundle valid

  module _ (np : Numpy F) (forward_window : ℕ) where
    -- From the times of the forecasts whose realized volatility is missing. Without prices there are
    -- no labels and so no updates, which is the early return.
    unfoldable pub backfill_from : String → Tables F → List ℕ → List (ForecastRow F)
    unfolding updates_of
    backfill_from symbol t [] = t.forecasts
    backfill_from symbol t (first ∷ missing) =
        let prices = fetch_prices_since t.prices symbol (first - minute) in
        let rv = compute_forward_realized_vol np forward_window (map (λ r. r.close) prices) in
        update_realized_vol (updates_of symbol prices rv (first ∷ missing)) t.forecasts

    unfoldable pub backfill_realized_vol : String → Tables F → List (ForecastRow F)
    unfolding backfill_from
    backfill_realized_vol symbol t =
        backfill_from symbol t
          (fetch_forecasts_missing_realized t.now t.forecasts symbol forward_window)

    module _ (sql : Sql F) (rolling_loss_points : ℕ) where
      -- The back-fill and the rolling losses, with which every turn of a symbol ends.
      unfoldable pub finish_turn : String → Tables F → Tables F
      unfolding backfill_realized_vol
      finish_turn symbol t =
          let forecasts = backfill_realized_vol symbol t in
          record t {
            forecasts = forecasts;
            metrics =
                update_rolling_losses sql t.now symbol rolling_loss_points forecasts t.metrics;
          }

      -- The loop's body; a symbol without models is skipped. Where nothing is valid no row is
      -- inserted and the rest follows, as it does after an insertion.
      unfoldable pub infer_symbol : Option (Bundle F) → String → Tables F → Tables F
      unfolding new_forecasts finish_turn
      infer_symbol none symbol t = t
      infer_symbol (some bundle) symbol t =
          let inserted = record t {
            forecasts = insert_forecasts (new_forecasts symbol bundle t) t.forecasts;
          } in
          finish_turn symbol inserted

      unfoldable pub run_inference : Dict (Bundle F) → List String → Tables F → Tables F
      unfolding infer_symbol
      run_inference models [] t = t
      run_inference models (symbol ∷ symbols) t =
          run_inference models symbols (infer_symbol (lookup symbol models) symbol t)
