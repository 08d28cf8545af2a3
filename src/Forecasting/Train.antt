-- ===== src/Forecasting/Train.antt =====
-- `train_models` of forecasting/train.py, and `XGBVolModel` of models/xgb_model.py. A body of the
-- loop that raises has the outcome `failed`. The time that training takes, which is only
-- reported, is left out.
mod Samples
pub mod Counts
pub mod Usable
unfoldable pub use Samples.*
use portfolio_engine.Prelude.{
  ℕ, ◌+◌, String, Bool, true, false, Option, none, some, List, [], ◌∷◌, map, length, ltb, replicate,
  ◌>>=◌, if◌then◌else◌,
}
use portfolio_engine.Float.{Float}
use portfolio_engine.Dict.{Dict, insert}
use portfolio_engine.Database.{FeatureRow}
use portfolio_engine.Portfolio.Numpy.{Numpy}
use portfolio_engine.FeatureEngineering.Indicators.{feature_cols}
use portfolio_engine.Forecasting.Inference.{Bundle}
use portfolio_engine.Forecasting.Garch.{Stats, Arch, GarchModel, fit, predict}

-- xgboost's regressor: fitted to rows and their targets, and its predictions. `none` is an exception.
pub record Xgboost (F : Type 0) : Type 1 where
  pub Fitted : Type 0
  pub fit_xgb : List (FeatureRow F) → List F → Option Fitted
  pub predict_xgb : Fitted → List (FeatureRow F) → Option (List F)

-- The measures of a model against the realized volatility.
pub record Metrics (F : Type 0) : Type 0 where
  pub xgb_mse : Option F
  pub xgb_qlike : Option F
  pub garch_mse : F
  pub garch_qlike : F
  pub samples : ℕ
  pub has_xgb : Bool

-- An entry of the dictionary that is returned. `fitted_xgb` is none where the regressor could not
-- be made or fitted; then its predictions raise.
pub record Trained (F Fit Fitted : Type 0) : Type 0 where
  pub garch : GarchModel F Fit
  pub fitted_xgb : Option Fitted
  pub metrics : Metrics F

-- The counters of the summary, but for the number of models.
pub record Summary : Type 0 where
  pub attempted : ℕ
  pub skipped_no_data : ℕ
  pub skipped_not_enough : ℕ
  pub failed_symbols : ℕ
  pub garch_only_symbols : ℕ

-- How the body of the loop ends for a symbol.
pub data Outcome (A : Type 0) : Type 0 where
  no_data : Outcome A
  not_enough : Outcome A
  failed : Outcome A
  trained : A → Outcome A

abbrev pub no_summary : Summary
no_summary = record {
  attempted = 0;
  skipped_no_data = 0;
  skipped_not_enough = 0;
  failed_symbols = 0;
  garch_only_symbols = 0;
}

module _ {F : Type 0} (xgb : Xgboost F) where
  open xgb use {Fitted, fit_xgb, predict_xgb}

  -- `XGBVolModel.predict`, which raises where nothing is fitted.
  abbrev pub predict_vol : Option Fitted → List (FeatureRow F) → Option (List F)
  predict_vol none rows = none
  predict_vol (some m) rows = predict_xgb m rows

module _ {F : Type 0} ⦃f : Float F⦄ (np : Numpy F) (stats : Stats F) (arch : Arch F)
    (xgb : Xgboost F) where
  open xgb use {Fitted, fit_xgb}

  abbrev pub Entry : Type 0
  Entry = Trained F arch.Fit Fitted

  abbrev pub garch_only : (garch_mse garch_qlike : F) → ℕ → Metrics F
  garch_only garch_mse garch_qlike samples = record {
    xgb_mse = none;
    xgb_qlike = none;
    garch_mse = garch_mse;
    garch_qlike = garch_qlike;
    samples = samples;
    has_xgb = false;
  }

  -- The inner `try`: the measures of the regressor, if it could be fitted and predicts.
  abbrev pub xgb_metrics : Option (List F) → List F → Metrics F → Metrics F
  xgb_metrics none y m = m
  xgb_metrics (some xgb_pred) y m = record m {
    xgb_mse = some (mse stats y xgb_pred);
    xgb_qlike = some (qlike stats y xgb_pred);
    has_xgb = true;
  }

  -- From the GARCH model, and the volatility that it predicts.
  unfoldable pub finish : List (FeatureRow F) → List F → GarchModel F arch.Fit → F → Entry
  unfolding mse qlike
  finish x y garch garch_const =
      let garch_pred = replicate (length y) garch_const in
      let fitted = fit_xgb x y in
      record {
        garch = garch;
        fitted_xgb = fitted;
        metrics =
            xgb_metrics (predict_vol xgb fitted x) y
              (garch_only (mse stats y garch_pred) (qlike stats y garch_pred) (length x));
      }

  abbrev pub outcome_of : Option Entry → Outcome Entry
  outcome_of none = failed
  outcome_of (some t) = trained t

  -- The rest of the loop's body, from the rows with all their values.
  unfoldable pub train_samples : List (Sample F) → Outcome Entry
  unfolding finish present
  train_samples samples =
      let x = map (λ (s : Sample F). s.row.features) samples in
      let y = map (λ (s : Sample F). s.target) samples in
      if ltb (length samples) 100
      then not_enough
      else outcome_of (do
        garch ← fit stats arch (some (present "log_return" x))
        garch_const ← predict stats arch 1 garch
        some (finish x y garch garch_const))

  abbrev pub train_rows : Source F → List (TrainingRow F) → Outcome Entry
  train_rows source [] = no_data
  train_rows source (r ∷ df) = train_samples (samples_of np source (r ∷ df))

  -- The loop's body. The query does not raise.
  unfoldable pub train_symbol : Source F → String → Outcome Entry
  unfolding train_samples
  train_symbol source symbol = train_rows source (
      fetch_training_data source.now source.features source.prices symbol
        source.rolling_window_days)

  -- What an outcome adds to the counters.
  abbrev pub count : Outcome Entry → Summary → Summary
  count no_data s = record s {
    attempted = s.attempted + 1;
    skipped_no_data = s.skipped_no_data + 1;
  }
  count not_enough s = record s {
    attempted = s.attempted + 1;
    skipped_not_enough = s.skipped_not_enough + 1;
  }
  count failed s = record s { attempted = s.attempted + 1; failed_symbols = s.failed_symbols + 1 }
  count (trained t) s = record s {
    attempted = s.attempted + 1;
    garch_only_symbols =
        if t.metrics.has_xgb then s.garch_only_symbols else s.garch_only_symbols + 1;
  }

  abbrev pub keep : String → Outcome Entry → Dict Entry → Dict Entry
  keep symbol (trained t) models = insert symbol t models
  keep symbol _ models = models

  -- The loop of `train_models`.
  unfoldable pub train_all :
      (String → Source F) → List String → Dict Entry → Summary → Dict Entry × Summary
  unfolding train_symbol
  train_all source_of [] models s = (models, s)
  train_all source_of (symbol ∷ symbols) models s =
      let outcome = train_symbol (source_of symbol) symbol in
      train_all source_of symbols (keep symbol outcome models) (count outcome s)

  -- The models, and the summary that is reported.
  unfoldable pub train_models : (String → Source F) → List String → Dict Entry × Summary
  unfolding train_all
  train_models source_of symbols = train_all source_of symbols [] no_summary

  -- What inference finds in an entry.
  abbrev pub bundle_of : Entry → Bundle F
  bundle_of t = record {
    garch_predict = predict stats arch 1 t.garch;
    xgb_predict = predict_vol xgb t.fitted_xgb;
    feature_cols = feature_cols;
  }
