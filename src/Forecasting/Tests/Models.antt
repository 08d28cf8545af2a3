-- ===== src/Forecasting/Tests/Models.antt =====
-- Models over fixed-point numbers: a fit that converges, and a regressor that cannot be fitted.
use portfolio_engine.Prelude.{
  ℕ, zero, suc, ◌+◌, ◌*◌, ◌≡◌, refl, none, some, List, [], ◌∷◌, map, length, replicate,
  if◌then◌else◌,
}
use portfolio_engine.Float.{lit, lt, ◌/◌}
use portfolio_engine.Float.Fixed.{Fixed, fixed_float, add_all}
use portfolio_engine.Float.Fixed.Laws.{Fixed-IsIeee}
use portfolio_engine.Database.{PriceRow, FeatureRow}
use portfolio_engine.Portfolio.Allocator.NoShort.{IsNotNegative}
use portfolio_engine.Portfolio.Schedule.{day, minute}
use portfolio_engine.Portfolio.Tests.Arrays.{arrays}
use portfolio_engine.Portfolio.Tests.Data.{symbols, price}
use portfolio_engine.FeatureEngineering.Indicators.{feature_cols}
use portfolio_engine.Forecasting.Garch.{Stats, Arch, GarchModel, fit, predict}
use portfolio_engine.Forecasting.Garch.Total.{fit_then_predict}
use portfolio_engine.Forecasting.Train.{Xgboost, Source, train_models}
use portfolio_engine.Forecasting.Train.Counts.{without_xgb, train_models-AddsUp}

abbrev pub stats : Stats Fixed
stats = record {
  mean = λ xs. add_all xs / lit (length xs) 0;
  std = λ xs. lit 1 2;
  maximum = λ a b. if lt a b then b else a;
}

abbrev pub arch : Arch Fixed
arch = record {
  Fit = ℕ;
  fit_arch = λ dist xs. some (length xs, 0);
  forecast = λ m steps. some (lit 1 4);
}

abbrev pub xgb : Xgboost Fixed
xgb = record { Fitted = ℕ; fit_xgb = λ x y. none; predict_xgb = λ m x. none }

abbrev returns : List Fixed
returns = replicate 25 (lit 1 2)

abbrev model : GarchModel Fixed ℕ
model = record { fitted = some 25; scale = lit 1 0; fallback_vol = none }

returns-fit : fit stats arch (some returns) ≡ some model
unfolding fit add_all
returns-fit = refl

fit_then_predict_example : (v : Fixed) × (predict stats arch 1 model ≡ some v) × IsNotNegative v
fit_then_predict_example =
    fit_then_predict stats arch Fixed-IsIeee (some returns) model 1 returns-fit
      (λ x e. (lit 1 4, refl))

-- Rows of one symbol, a minute apart.
abbrev feature_rows : ℕ → List (FeatureRow Fixed)
feature_rows zero = []
feature_rows (suc n) =
    record {
      time = n * minute;
      symbol = "BTCUSDT";
      values = map (λ c. (c, some (lit (n + 1) 4))) feature_cols;
    }
    ∷ feature_rows n

abbrev price_rows : ℕ → List (PriceRow Fixed)
price_rows zero = []
price_rows (suc n) = price (n * minute) "BTCUSDT" (100 + n) ∷ price_rows n

abbrev pub source : Source Fixed
source = record {
  now = day;
  features = feature_rows 110;
  prices = price_rows 110;
  rolling_window_days = 60;
  forward_window = 5;
}

train_models-AddsUp_example :
    let (models, s) = train_models arrays stats arch xgb (λ symbol. source) symbols in
    (s.attempted ≡ length symbols)
    × (s.skipped_no_data + s.skipped_not_enough + s.failed_symbols + length models ≡ length symbols)
    × (s.garch_only_symbols ≡ without_xgb models)
train_models-AddsUp_example =
    train_models-AddsUp arrays stats arch xgb (λ symbol. source) symbols ((refl, tt), (tt, tt))
