-- ===== src/Tables.antt =====
-- The tables that the services make as they start: `ensure_tables` of portfolio_engine/db.py, of
-- forecasting/db.py and of feature_engineering/db.py, and `ensure_backfill_status_table`.
pub mod Columns
pub mod Written
pub mod Again
pub mod Begin
pub mod Fit
pub mod Succeeds
mod Tests
use portfolio_engine.Prelude.{String, Bool, true, false, List, [], ◌∷◌, ◌++◌, map}
use portfolio_engine.Dict.{Dict}
use portfolio_engine.Database.Schema.{
  Column, Index, Catalog, Statement, create_table, add_column, ensure_hypertable, create_index,
  execute_all,
}
use portfolio_engine.FeatureEngineering.Indicators.{feature_cols}

abbrev column : String → String → Column
column name sql_type = record { name = name; sql_type = sql_type; is_required = false }

abbrev required : String → String → Column
required name sql_type = record { name = name; sql_type = sql_type; is_required = true }

abbrev double : String → Column
double name = column name "DOUBLE PRECISION"

abbrev time_column : Column
time_column = required "time" "TIMESTAMPTZ"

abbrev symbol_column : Column
symbol_column = required "symbol" "TEXT"

-- The columns of the primary key or of the index `(symbol, time DESC)`.
abbrev symbol_time : List String
symbol_time = "symbol" ∷ "time" ∷ []

abbrev index_on : String → List String → Bool → Index
index_on table columns is_unique = record {
  table = table;
  columns = columns;
  is_unique = is_unique;
}

-- `portfolio_state` before it had the columns of the profit and loss.
abbrev pub first_state_columns : List String
first_state_columns =
    "time" ∷ "weights" ∷ "portfolio_vol" ∷ "sharpe_proxy" ∷ "equity" ∷ "transaction_cost"
    ∷ "turnover" ∷ []

abbrev state_table : List Column
state_table =
    time_column
    ∷ required "weights" "JSONB"
    ∷ map double (
        "portfolio_vol" ∷ "sharpe_proxy" ∷ "equity" ∷ "transaction_cost" ∷ "turnover" ∷ "period_pnl"
        ∷ "cumulative_pnl" ∷ [])

unfoldable pub portfolio_statements : List Statement
portfolio_statements =
    create_table "portfolio_state" state_table ("time" ∷ [])
    ∷ add_column "portfolio_state" (double "period_pnl")
    ∷ add_column "portfolio_state" (double "cumulative_pnl")
    ∷ ensure_hypertable "portfolio_state" "time"
    ∷ create_index "idx_portfolio_state_time_desc" (index_on "portfolio_state" ("time" ∷ []) false)
    ∷ []

abbrev forecast_table : List Column
forecast_table =
    time_column ∷ symbol_column ∷ map double ("garch_vol" ∷ "xgb_vol" ∷ "realized_vol" ∷ [])

abbrev metrics_table : List Column
metrics_table =
    time_column
      ∷ symbol_column
      ∷ map double ("garch_mse" ∷ "garch_qlike" ∷ "xgb_mse" ∷ "xgb_qlike" ∷ [])
    ++ (required "garch_samples" "INTEGER DEFAULT 0"
        ∷ required "xgb_samples" "INTEGER DEFAULT 0"
        ∷ required "window_points" "INTEGER"
        ∷ [])

unfoldable pub forecast_statements : List Statement
forecast_statements =
    create_table "forecasts" forecast_table symbol_time
    ∷ ensure_hypertable "forecasts" "time"
    ∷ create_index "idx_forecasts_symbol_time" (index_on "forecasts" symbol_time false)
    ∷ create_table "model_metrics" metrics_table symbol_time
    ∷ ensure_hypertable "model_metrics" "time"
    ∷ create_index "idx_model_metrics_symbol_time" (index_on "model_metrics" symbol_time false)
    ∷ []

unfoldable pub backfill_statements : List Statement
backfill_statements =
    create_table "backfill_status"
      (required "symbol" "TEXT"
        ∷ required "status" "TEXT"
        ∷ required "completed_at" "TIMESTAMPTZ"
        ∷ [])
      ("symbol" ∷ [])
    ∷ []

abbrev price_table : List Column
price_table =
    time_column ∷ symbol_column ∷ map double ("open" ∷ "high" ∷ "low" ∷ "close" ∷ "volume" ∷ [])

abbrev feature_table : List Column
feature_table =
    time_column
    ∷ symbol_column
    ∷ map double (
        "log_return" ∷ "squared_return" ∷ "volume_roc" ∷ "hl_range" ∷ "ret_mean_5" ∷ "ret_std_5"
        ∷ "realized_vol_5" ∷ "parkinson_vol_5" ∷ "ret_skew_5" ∷ "ret_kurt_5" ∷ "volume_mean_5"
        ∷ "ret_mean_15" ∷ "ret_std_15" ∷ "realized_vol_15" ∷ "parkinson_vol_15" ∷ "ret_skew_15"
        ∷ "ret_kurt_15" ∷ "volume_mean_15" ∷ "ret_mean_30" ∷ "ret_std_30" ∷ "realized_vol_30"
        ∷ "parkinson_vol_30" ∷ "ret_skew_30" ∷ "ret_kurt_30" ∷ "volume_mean_30" ∷ "ret_mean_60"
        ∷ "ret_std_60" ∷ "realized_vol_60" ∷ "parkinson_vol_60" ∷ "ret_skew_60" ∷ "ret_kurt_60"
        ∷ "volume_mean_60" ∷ [])

unfoldable pub feature_statements : List Statement
feature_statements =
    create_table "prices" price_table []
    ∷ ensure_hypertable "prices" "time"
    ∷ create_index "idx_prices_symbol_time" (index_on "prices" symbol_time true)
    ∷ create_table "features" feature_table []
    ∷ ensure_hypertable "features" "time"
    ∷ create_index "idx_features_symbol_time" (index_on "features" symbol_time true)
    ∷ []

pub data Program : Type 0 where
  portfolio_engine_program : Program
  forecasting_program : Program
  feature_engineering_program : Program

-- What `main` of a program runs on the catalogue: whether it succeeds, and what it leaves.
unfoldable pub statements_of : Program → List Statement
unfolding portfolio_statements forecast_statements backfill_statements feature_statements
statements_of portfolio_engine_program = portfolio_statements
statements_of forecasting_program = forecast_statements ++ backfill_statements
statements_of feature_engineering_program = feature_statements

unfoldable pub ensure_tables : Program → Catalog → Bool × Catalog
ensure_tables p = execute_all (statements_of p)

-- The columns that the statements of a program write in each table.
abbrev pub written : Program → Dict (List String)
written portfolio_engine_program =
    ("portfolio_state", first_state_columns ++ ("period_pnl" ∷ "cumulative_pnl" ∷ [])) ∷ []
written forecasting_program =
    ("forecasts", "time" ∷ "symbol" ∷ "garch_vol" ∷ "xgb_vol" ∷ "realized_vol" ∷ [])
    ∷ (
      "model_metrics",
      "time" ∷ "symbol" ∷ "garch_mse" ∷ "garch_qlike" ∷ "xgb_mse" ∷ "xgb_qlike" ∷ "garch_samples"
          ∷ "xgb_samples" ∷ "window_points" ∷ [],
    )
    ∷ ("backfill_status", "symbol" ∷ "status" ∷ "completed_at" ∷ [])
    ∷ []
written feature_engineering_program =
    ("prices", "time" ∷ "symbol" ∷ "open" ∷ "high" ∷ "low" ∷ "close" ∷ "volume" ∷ [])
    ∷ ("features", "time" ∷ "symbol" ∷ feature_cols)
    ∷ []

-- The columns that a table has, if it was made by an earlier version of the program.
abbrev pub earlier : Program → Dict (List String)
earlier portfolio_engine_program = ("portfolio_state", first_state_columns) ∷ []
earlier forecasting_program = written forecasting_program
earlier feature_engineering_program = written feature_engineering_program
