-- ===== src/Lib.antt =====
-- Verification of the Python services of the portfolio engine: feature_engineering/, which turns the
-- candles of a stream into price and feature rows; forecasting/, which trains volatility models and
-- stores their forecasts; and portfolio_engine/, which once a day chooses portfolio weights, books the
-- profit of the period, stores the state and publishes it.
--
-- The parts, and where they are modelled:
-- - portfolio_engine/main.py. Portfolio/Schedule: `_next_rebalance_from` (next_rebalance_from) and
--   the sleep of `main` (sleep_seconds). Portfolio/Rebalance: `_run_rebalance` (run_rebalance) and
--   `_publish` (publish); plan is everything that is computed before the first write.
--   Portfolio/Loop: the loop of `main` (check is its body, serve the rounds that come).
--   Portfolio/Start: `main` as a whole: the connection, the tables, the address of Redis, the waits
--   and then the loop; what each of these meets is the record Boot.
-- - portfolio_engine/allocator.py. Portfolio/Allocator: `_project_weights` (project_weights, its loop
--   rounds), `inverse_vol_weights`, `optimize_sharpe_proxy` (its loop ascents), `portfolio_volatility`,
--   `sharpe_proxy`, `choose_target_vols`. Portfolio/Estimates: `_to_return_matrix`, `estimate_mu`,
--   `estimate_covariance`, with `fetch_return_history` and `fetch_short_return_history` of db.py.
-- - portfolio_engine/db.py. Portfolio/Pnl: `compute_portfolio_pnl`. Portfolio/Prices:
--   `fetch_latest_prices`, `compute_period_asset_returns`. Portfolio/States: `insert_portfolio_state`,
--   `fetch_latest_portfolio_state`. Portfolio/Forecasts: `fetch_latest_forecasts`. Portfolio/Ready:
--   `wait_for_backfill`, `wait_for_prices`, `wait_for_forecasts`. Database/Connect: `connect`, which
--   the other two services repeat word for word but for the log.
-- - portfolio_engine/config.py. Settings: `_parse_symbols` (parse_symbols), and the split of REDIS_ADDR
--   in two of the `main`s (parse_address). The settings themselves are the record Config of
--   Portfolio/Rebalance and arguments.
-- - forecasting/models/garch_model.py. Forecasting/Garch: `GARCHModel` (fit, predict; attempt is the
--   loop over the distributions).
-- - forecasting/train.py. Forecasting/Train: `train_models` (train_models; train_symbol is the body of
--   its loop), with `XGBVolModel` (predict_vol). Forecasting/Train/Samples: the rows to train on
--   (fetch_training_data, samples_of), `_mse` and `_qlike`.
-- - forecasting/inference.py. Forecasting/Inference: `run_inference` (run_inference, its body
--   infer_symbol) and `_backfill_realized_vol` (backfill_realized_vol). Forecasting/Losses:
--   `write_rolling_model_metrics` of db.py. Forecasting/Labels: `compute_forward_realized_vol` of
--   labels.py. Forecasting/Store: the queries of db.py that inference uses.
-- - forecasting/main.py. Forecasting/Training: `training_loop` (retry_of is its choice of a fast retry,
--   sleep_of its sleep). Forecasting/Service: the two threads over the shared models (Step), and
--   `inference_loop` (inference_round). Forecasting/Ready: the waits and marks of db.py.
--   Forecasting/Start: `main`, from the connection to the state in which the threads start.
-- - feature_engineering/main.py and db.py. FeatureEngineering/Stream: the innermost loop of `main` (run;
--   handle is its body for a candle), `_parse_kline`, `insert_price` and `insert_features` (store).
--   FeatureEngineering/Reads: the loops around it, which read the stream (consume, consume_loop).
--   FeatureEngineering/Start: `main` as a whole.
-- - feature_engineering/features.py. FeatureEngineering/Indicators: `compute_features`,
--   `latest_feature_row` and what they call.
-- - The `ensure_tables` of the three db.py and `ensure_backfill_status_table`. Database/Schema: the
--   statements on a catalogue of tables and indexes (execute, execute_all). Tables: the statements of
--   each program (statements_of), the columns that it writes and those of its earlier version.
--   Tables/Begin: `connect` and then `ensure_tables`, as each `main` begins.
-- - System: the services together. System/Services: their turns on the shared tables in any order, with
--   stops and new starts (Turn); a turn is one candle, one step of Forecasting/Service or one round of
--   the portfolio service, which reads the tables as they are when it begins. System/Pipeline,
--   System/Starts and System/Unlisted: what a service needs of the tables that the others fill.
-- - Shared: Prelude (names, Booleans, options, lists), Float (doubles), Dict (dictionaries), Database
--   (tables, DISTINCT ON, ON CONFLICT, ORDER BY). The modules called Tests have the concrete inputs.
--
-- How they interact: the services share the tables `prices`, `features`, `forecasts`,
-- `portfolio_state`, `model_metrics` and `backfill_status`. The consumer writes the first two. Training
-- joins them; inference reads the feature rows without a forecast and fills `forecasts`, and the
-- realized volatility of its rows once their prices have come. A rebalance reads `prices`, `forecasts`
-- and `portfolio_state` and then writes the last, a Redis stream and a Redis key, in this order. The
-- five of a rebalance are the record World, and what a run meets from outside (clocks, failures) is
-- the record Env. A run is a function of both to a flag and the World it leaves; the flag is false
-- where an exception reaches the handler in `main`.
--
-- Doubles are an interface (Float), with the laws of IEEE 754 that the proofs need (IsIeee): a
-- comparison with NaN is false, rounding is monotone, numbers up to 2 ^ 53 are exact. No law says that
-- a sum does not round. Float/Fixed is a model of these laws, fixed-point numbers with a NaN, so that
-- the laws hold together and the code runs on examples. Python's sum, numpy, pandas, the aggregates of
-- SQL, arch and xgboost are operations of interfaces; the laws of numpy that are used are in IsNumpy,
-- and those of the `sort_index` of pandas in IsSeries. The rest of pandas, its rolling sums among them,
-- has no laws. arch and xgboost have none either, but a fitted model answers alike each time. The
-- order in which Python lists a set is a parameter.
-- Redis' `xread` is a parameter too; its law (IsXread) is that it gives the first messages after an id,
-- from a stream of which nothing has been dropped.
--
-- `none` is an exception. Texts that the code takes apart are lists of code points; their upper
-- case beyond ASCII (upper_other) and which texts Python's `int` reads (is_int) are parameters.
-- Tables are lists of rows; a tie in ORDER BY keeps the order of the rows. Times are microseconds
-- from the start of a day (for the candles, from 1970), natural numbers. What the database driver
-- stores for a dictionary is the parameter `adapt`, which may refuse it; other queries do not fail,
-- and of the statements that make tables only those that Database/Schema says. Whether each Redis
-- command works is a Boolean of Env. The loops that the source bounds (200 rounds of the
-- projection, MAX_OPT_ITERS steps, 10 attempts to connect) recurse on that bound; inference takes
-- at most 5000 feature rows of a symbol, as the query does; the endless loops recurse on the list
-- of rounds, polls, messages or cycles that come.
--
-- Not modelled: log lines and the times that are only logged; the text forms of the payload in Redis;
-- NULL prices; overflow errors, as of `sigma ** 3`; invalid settings, such as an hour of 24;
-- the reads of the environment and the numbers read from it; the trimming of the stream; and the
-- services under ingestion/ and api_gateway/ (Go, network input and output).
-- Queries run on tables that are there, with the keys that Tables makes; that a unique index cannot
-- be made over rows that repeat a key is left out.
pub mod Database
pub mod Tables
pub mod Settings
pub mod System
pub mod Dict
pub mod FeatureEngineering
pub mod Float
pub mod Forecasting
pub mod Portfolio
pub mod Prelude
