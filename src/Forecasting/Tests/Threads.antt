-- ===== src/Forecasting/Tests/Threads.antt =====
-- The loops of the forecasting service, its losses and its waits.
use portfolio_engine.Prelude.{
  ℕ, suc, ltb, ◌*◌, ◌<◌, ◌≡◌, ◌⊎◌, refl, String, Option, true, false, none, some, List, [], ◌∷◌,
  ◌++◌, length, arith, if◌then◌else◌,
}
use portfolio_engine.Float.{lit, lt}
use portfolio_engine.Float.Fixed.{Fixed, fixed_float}
use portfolio_engine.Dict.{contains, keys, lookup}
use portfolio_engine.Database.{ForecastRow, MetricsRow}
use portfolio_engine.Database.Connect.{connected, raised, max_retries, Fail, connect, connect-Ends}
use portfolio_engine.Forecasting.Train.{train_models}
use portfolio_engine.Portfolio.Schedule.{day}
use portfolio_engine.Portfolio.Tests.Arrays.{arrays}
use portfolio_engine.Portfolio.Tests.Data.{symbols}
use portfolio_engine.Forecasting.Losses.{Sql, recent, write_rolling_model_metrics}
use portfolio_engine.Forecasting.Losses.Recent.{
  IsSummary, has_scored, losses_are_recent, losses_written,
}
use portfolio_engine.Forecasting.Training.{Settings, models_after, Cycle, training_loop}
use portfolio_engine.Forecasting.Training.Latest.{IsLatest, training_loop-IsLatest}
use portfolio_engine.Forecasting.Service.{Service, Step, Reach, infer_turn}
use portfolio_engine.Forecasting.Tests.Models.{stats, arch, xgb, source}

abbrev settings : Settings
settings = record {
  symbols = symbols;
  retrain_interval_hours = 24;
  training_empty_retry_seconds = 60;
  training_partial_retry_seconds = 300;
}

-- A model of one symbol, an exception, then a model of the other.
abbrev cycles : List (Cycle Fixed ℕ)
cycles =
    record { new_models = some (("BTCUSDT", 1) ∷ []); elapsed = lit 5 0 }
    ∷ record { new_models = none; elapsed = lit 5 0 }
    ∷ []

abbrev last_cycle : Cycle Fixed ℕ
last_cycle = record { new_models = some (("ETHUSDT", 2) ∷ []); elapsed = lit 5 0 }

training_loop-IsLatest_example :
    IsLatest settings "BTCUSDT" cycles none (lookup "BTCUSDT" (training_loop settings cycles []).0)
unfolding lookup keys
training_loop-IsLatest_example =
    training_loop-IsLatest settings "BTCUSDT" cycles [] ((tt, tt), (tt, tt))

abbrev pub sql : Sql Fixed
sql = record { avg = λ xs. lit (length xs) 0; greatest = λ a b. if lt a b then b else a }

abbrev pub start : Service arrays stats arch xgb symbols 5 sql 500
start = record {
  models = [];
  snapshot = [];
  tables = record {
    now = 3 * day;
    prices = source.prices;
    features = source.features;
    forecasts = [];
    metrics = [];
  };
}

abbrev pub trained_state : Service arrays stats arch xgb symbols 5 sql 500
trained_state = record start {
  models =
      models_after (some (train_models arrays stats arch xgb (λ symbol. source) symbols).0)
        start.models;
}

abbrev pub copied_state : Service arrays stats arch xgb symbols 5 sql 500
copied_state = record trained_state { snapshot = trained_state.models }

abbrev pub inferred_state : Service arrays stats arch xgb symbols 5 sql 500
inferred_state = record copied_state {
  tables =
      infer_turn arrays stats arch xgb symbols 5 sql 500 copied_state.snapshot "BTCUSDT"
        copied_state.tables;
}

-- A training, a copy of the models, and the turn of a symbol.
pub three_steps : Reach arrays stats arch xgb symbols 5 sql 500 start inferred_state
unfolding contains
three_steps =
    Reach.next
      (Reach.next (Reach.next Reach.here (Step.trains (λ symbol. source) refl)) (Step.copies refl))
      (Step.infers "BTCUSDT" refl refl)

abbrev realized : ℕ → ForecastRow Fixed
realized t = record {
  time = t * day;
  symbol = "BTCUSDT";
  garch_vol = some (lit 2 2);
  xgb_vol = none;
  realized_vol = some (lit t 2);
}

losses_are_recent_example :
    write_rolling_model_metrics sql
      (9 * day)
      "BTCUSDT"
      2
      (lit 1 12)
      (realized 1 ∷ [] ++ (realized 4 ∷ realized 3 ∷ []))
      []
    ≡ write_rolling_model_metrics sql
        (9 * day)
        "BTCUSDT"
        2
        (lit 1 12)
        (realized 4 ∷ realized 3 ∷ [])
        []
losses_are_recent_example =
    losses_are_recent sql (9 * day) "BTCUSDT" 2 (lit 1 12) (realized 1 ∷ [])
      (realized 4 ∷ realized 3 ∷ []) [] (omega arith) (omega arith)

losses_written_example :
    let rows = realized 4 ∷ realized 3 ∷ [] in
    let after = write_rolling_model_metrics sql (9 * day) "BTCUSDT" 2 (lit 1 12) rows [] in
    let scored = has_scored (recent "BTCUSDT" 2 rows) in
    ((scored ≡ true) × (row : MetricsRow Fixed) × (after ≡ [] ++ row ∷ []) × IsSummary 2 row)
    ⊎ ((scored ≡ false) × (after ≡ []))
losses_written_example =
    losses_written sql (9 * day) "BTCUSDT" 2 (lit 1 12) (realized 4 ∷ realized 3 ∷ []) []

-- The third attempt works.
abbrev outcome : ℕ → Option String
outcome attempt = if ltb attempt 3 then none else some "connection"

connect-Ends_example :
    ((c : String) × (k : ℕ) × (k < max_retries)
      × Fail outcome k
      × (outcome (suc k) ≡ some c)
      × (connect outcome ≡ connected c k))
    ⊎ (Fail outcome max_retries × (connect outcome ≡ raised))
connect-Ends_example = connect-Ends outcome
