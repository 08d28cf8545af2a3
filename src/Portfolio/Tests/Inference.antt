-- ===== src/Portfolio/Tests/Inference.antt =====
-- The theorems on the forecasting service, applied to two symbols of which one has models.
use portfolio_engine.Prelude.{
  refl, ℕ, ◌*◌, ◌≡◌, ◌≢◌, ap, eq_iff, String, none, some, List, [], ◌∷◌, ◌++◌, map, get_elem?,
  length, if◌then◌else◌, arith,
}
use portfolio_engine.Float.{lit, lt, ◌/◌}
use portfolio_engine.Float.Fixed.{Fixed, fixed_float, add_all}
use portfolio_engine.Dict.{Dict, lookup}
use portfolio_engine.Database.{FeatureRow, where_true, order_by_time, place, pair_key}
use portfolio_engine.Portfolio.Schedule.{day}
use portfolio_engine.Forecasting.Labels.{compute_forward_realized_vol}
use portfolio_engine.Forecasting.Labels.Stable.{label-IsStable}
use portfolio_engine.Forecasting.Inference.{Bundle, Tables, is_valid, predict, run_inference}
use portfolio_engine.Forecasting.Inference.Stall.{full_batch-predict}
use portfolio_engine.Forecasting.Losses.{Sql}
use portfolio_engine.Forecasting.Store.{fetch_unforecasted_features}
use portfolio_engine.Forecasting.Inference.Keeps.{Grows, run_inference-Grows}
use portfolio_engine.Portfolio.Tests.Arrays.{arrays}
use portfolio_engine.Portfolio.Tests.Data.{symbols, prices, forecasts}

abbrev sql : Sql Fixed
sql = record {
  avg = λ xs. add_all xs / lit (length xs) 0;
  greatest = λ a b. if lt a b then b else a;
}

abbrev closes : List Fixed
closes = lit 100 0 ∷ lit 110 0 ∷ lit 99 0 ∷ []

label-IsStable_example :
    get_elem? (compute_forward_realized_vol arrays 1 (closes ++ lit 105 0 ∷ [])) 1
    ≡ get_elem? (compute_forward_realized_vol arrays 1 closes) 1
label-IsStable_example = label-IsStable arrays 1 closes (lit 105 0 ∷ []) 1 (omega arith)

abbrev bundle : Bundle Fixed
bundle = record {
  garch_predict = none;
  xgb_predict = λ rows. some (map (λ r. lit 2 2) rows);
  feature_cols = "log_return" ∷ [];
}

abbrev features : List (FeatureRow Fixed)
features =
    record { time = 2 * day; symbol = "BTCUSDT"; values = ("log_return", some (lit 1 3)) ∷ [] }
    ∷ record { time = 2 * day; symbol = "ETHUSDT"; values = ("log_return", none) ∷ [] }
    ∷ []

abbrev tables : Tables Fixed
tables = record {
  now = 3 * day;
  prices = prices;
  features = features;
  forecasts = forecasts;
  metrics = [];
}

abbrev models : Dict (Bundle Fixed)
models = ("BTCUSDT", bundle) ∷ []

two_keys : ◌≢◌ {A = String × ℕ} ("ETHUSDT", day) ("BTCUSDT", day)
two_keys e =
    let same = (eq_iff "ETHUSDT" "BTCUSDT").1 (ap (λ (p : String × ℕ). p.0) e) in
    absurd (ground (arith, same))

run_inference-Grows_example :
    Grows arrays 5 tables (run_inference arrays 5 sql 500 models symbols tables)
run_inference-Grows_example =
    run_inference-Grows arrays 5 sql 500 models symbols tables ((two_keys, tt), (tt, tt))

abbrev stale : List (FeatureRow Fixed)
stale = record { time = 2 * day; symbol = "ETHUSDT"; values = ("log_return", none) ∷ [] } ∷ []

abbrev newer_rows : List (FeatureRow Fixed)
newer_rows =
    record { time = 3 * day; symbol = "ETHUSDT"; values = ("log_return", some (lit 1 3)) ∷ [] } ∷ []

full_batch-predict_example :
    predict "ETHUSDT" bundle (
      where_true
        (is_valid bundle.feature_cols)
        (fetch_unforecasted_features (stale ++ newer_rows) forecasts "ETHUSDT" 1))
    ≡ []
unfolding fetch_unforecasted_features order_by_time place lookup
full_batch-predict_example =
    full_batch-predict stale newer_rows forecasts "ETHUSDT" 1 bundle refl (refl, tt)
      ((omega arith, tt), tt)
