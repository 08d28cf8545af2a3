-- ===== src/Forecasting/Train/Samples.antt =====
-- The rows to train on, with `fetch_training_data` of forecasting/db.py, and `_mse` and `_qlike` of
-- forecasting/train.py.
use portfolio_engine.Prelude.{
  ℕ, ◌+◌, ◌*◌, String, Bool, ◌&&◌, not, some, List, [], ◌∷◌, ◌++◌, map, leb, ◌==◌, str_eq,
  if◌then◌else◌,
}
use portfolio_engine.Float.{Float, ◌*◌ as times, ◌+◌ as add, ◌-◌, ◌/◌, lit, log, is_nan}
use portfolio_engine.Dict.{lookup}
use portfolio_engine.Database.{PriceRow, FeatureRow, where_true, order_by_time}
use portfolio_engine.Portfolio.Numpy.{Numpy}
use portfolio_engine.Portfolio.Schedule.{day}
use portfolio_engine.FeatureEngineering.Indicators.{feature_cols}
use portfolio_engine.Forecasting.Labels.{compute_forward_realized_vol}
use portfolio_engine.Forecasting.Inference.{is_valid}
use portfolio_engine.Forecasting.Garch.{Stats}

-- What the training of a symbol uses from outside: the database's clock, the tables as they then
-- are, and the settings ROLLING_WINDOW_DAYS and FORWARD_WINDOW.
pub record Source (F : Type 0) : Type 0 where
  pub now : ℕ
  pub features : List (FeatureRow F)
  pub prices : List (PriceRow F)
  pub rolling_window_days : ℕ
  pub forward_window : ℕ

-- A row of the joined tables.
pub record TrainingRow (F : Type 0) : Type 0 where
  pub features : FeatureRow F
  pub close : F

module _ {F : Type 0} where
  -- The prices that a feature row is joined with.
  unfoldable pub join_prices : FeatureRow F → List (PriceRow F) → List (TrainingRow F)
  join_prices r [] = []
  join_prices r (p ∷ prices) =
      let rest = join_prices r prices in
      if str_eq p.symbol r.symbol && p.time == r.time
      then record { features = r; close = p.close } ∷ rest
      else rest

  unfoldable pub join : List (FeatureRow F) → List (PriceRow F) → List (TrainingRow F)
  unfolding join_prices
  join [] prices = []
  join (r ∷ features) prices = join_prices r prices ++ join features prices

  -- `now` is the database's clock.
  unfoldable pub fetch_training_data :
      ℕ
      → List (FeatureRow F)
      → List (PriceRow F)
      → String
      → (window_days : ℕ) → List (TrainingRow F)
  unfolding join
  fetch_training_data now features prices symbol window_days =
      order_by_time (λ r. r.features.time)
        (where_true
          (λ r. str_eq r.features.symbol symbol && leb now (r.features.time + window_days * day))
          (join features prices))

-- A row with its label.
pub record Sample (F : Type 0) : Type 0 where
  pub row : TrainingRow F
  pub target : F

module _ {F : Type 0} ⦃f : Float F⦄ where
  -- `np.mean((y_true - y_pred) ** 2)`
  abbrev pub squared_errors : List F → List F → List F
  squared_errors (y ∷ ys) (p ∷ ps) = times (y - p) (y - p) ∷ squared_errors ys ps
  squared_errors _ _ = []

  unfoldable pub mse : Stats F → List F → List F → F
  mse stats y_true y_pred = stats.mean (squared_errors y_true y_pred)

  abbrev pub floored_var : Stats F → F → F
  floored_var stats vol = stats.maximum (times vol vol) (lit 1 12)

  abbrev pub likelihoods : Stats F → List F → List F → List F
  likelihoods stats (y ∷ ys) (p ∷ ps) =
      add (log (floored_var stats p)) (floored_var stats y / floored_var stats p)
      ∷ likelihoods stats ys ps
  likelihoods stats _ _ = []

  unfoldable pub qlike : Stats F → List F → List F → F
  qlike stats y_true y_pred = stats.mean (likelihoods stats y_true y_pred)

  -- The column `target_realized_vol` beside the others.
  abbrev pub with_targets : List (TrainingRow F) → List F → List (Sample F)
  with_targets (r ∷ rows) (y ∷ ys) = record { row = r; target = y } ∷ with_targets rows ys
  with_targets _ _ = []

  -- `dropna(subset=["target_realized_vol", "log_return"] + FEATURE_COLS)` keeps the row.
  abbrev pub is_complete : Sample F → Bool
  is_complete s = not (is_nan s.target) && is_valid ("log_return" ∷ feature_cols) s.row.features

  -- A column without its missing values.
  unfoldable pub present : String → List (FeatureRow F) → List F
  present column [] = []
  present column (r ∷ rows) =
      let rest = present column rows in
      elim (lookup column r.values) [
        | some (some x) ↦ if is_nan x then rest else x ∷ rest
        | _ ↦ rest
      ]

  -- The rows to train on, with their labels.
  unfoldable pub samples_of : Numpy F → Source F → List (TrainingRow F) → List (Sample F)
  samples_of np source df = where_true is_complete (
      with_targets df (
        compute_forward_realized_vol np source.forward_window
          (map (λ (r : TrainingRow F). r.close) df)))
