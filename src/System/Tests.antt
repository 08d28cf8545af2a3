-- ===== src/System/Tests.antt =====
-- The theorems on the services together, at a symbol that is missing and at 161 candles.
mod Turns
use portfolio_engine.Prelude.{
  ℕ, zero, suc, ◌*◌, ◌<◌, ◌≡◌, ◌≢◌, refl, ap, String, some, List, [], ◌∷◌, length, All, IsNodup,
  arith,
}
use portfolio_engine.Float.Fixed.{Fixed, fixed_float}
use portfolio_engine.Dict.{contains, keys, lookup, insert}
use portfolio_engine.Database.Schema.{execute_all}
use portfolio_engine.Tables.{forecasting_program, ensure_tables, statements_of}
use portfolio_engine.Tables.Begin.{CanBegin}
use portfolio_engine.Portfolio.Start.{Boot, serving, first_service, main}
use portfolio_engine.Portfolio.Tests.Arrays.{arrays, frames}
use portfolio_engine.Portfolio.Tests.Data.{symbols, config, rounds}
use portfolio_engine.Portfolio.Tests.Start.{boot, sleeps}
use portfolio_engine.Forecasting.Ready.Marks.{mark_all}
use portfolio_engine.Forecasting.Service.{Reach}
use portfolio_engine.Forecasting.Start.{
  Boot as ThreadsBoot, main as threads_main, threads, first_state,
}
use portfolio_engine.Forecasting.Tests.Models.{stats, arch, xgb}
use portfolio_engine.Forecasting.Tests.Threads.{sql, start, inferred_state, three_steps}
use portfolio_engine.Forecasting.Tests.Start.{boot as forecasting_boot}
use portfolio_engine.FeatureEngineering.Stream.{Message, fresh, parse_kline, run}
use portfolio_engine.FeatureEngineering.Stream.Bounded.{candles_of}
use portfolio_engine.FeatureEngineering.Stream.Times.{candle_times}
use portfolio_engine.FeatureEngineering.Tests.{raw, parse, series, empty}
use portfolio_engine.System.Unlisted.{unlisted_waits}
use portfolio_engine.System.Pipeline.{HasCandles}
use portfolio_engine.System.Starts.{candles_start_threads}

-- A candle for each minute from `t` on.
abbrev minutes : ℕ → ℕ → List Message
minutes t zero = []
minutes t (suc n) = record { msg_id = "1-0"; kline = some (raw t) } ∷ minutes (suc t) n

abbrev times : ℕ → ℕ → List ℕ
times t zero = []
times t (suc n) = t * 1000 ∷ times (suc t) n

times-Above : (x t n : ℕ) → x < t → All (λ y. x * 1000 ≢ y) (times t n)
times-Above x t zero h = tt
times-Above x t (suc n) h = (λ e. absurd (omega arith), times-Above x (suc t) n (omega arith))

times-IsNodup : (t n : ℕ) → IsNodup (times t n)
times-IsNodup t zero = tt
times-IsNodup t (suc n) = (times-Above t (suc t) n (omega arith), times-IsNodup (suc t) n)

length-times : (t n : ℕ) → length (times t n) ≡ n
length-times t zero = refl
length-times t (suc n) = ap suc (length-times (suc t) n)

minutes-times : (t n : ℕ) → candle_times "BTCUSDT" (candles_of parse (minutes t n)) ≡ times t n
unfolding candles_of parse_kline
minutes-times t zero = refl
minutes-times t (suc n) = ap (λ l. t * 1000 ∷ l) (minutes-times (suc t) n)

minutes-HasCandles : HasCandles series parse (minutes 0 161) 161 "BTCUSDT"
minutes-HasCandles =
    rw (minutes-times 0 161) (times-IsNodup 0 161, omega (arith, length-times 0 161))

abbrev btc : List String
btc = "BTCUSDT" ∷ []

abbrev boot_btc : ThreadsBoot Fixed ℕ
boot_btc = record forecasting_boot {
  backfills = mark_all btc [] ∷ [];
  features = (run series parse (minutes 0 161) fresh empty).2.features ∷ [];
}

boot_btc-CanBegin : CanBegin boot_btc.attempt forecasting_program boot_btc.catalog
unfolding ensure_tables execute_all statements_of lookup keys insert contains
boot_btc-CanBegin = ((1, omega arith, 2, refl), refl)

candles_start_threads_example :
    threads_main arrays stats arch xgb btc 5 sql 500 boot_btc
    ≡ threads
        (record { for_backfill = 0; for_features = 0 })
        (first_state arrays stats arch xgb btc 5 sql 500 boot_btc)
unfolding contains
candles_start_threads_example =
    candles_start_threads arrays stats arch xgb btc 5 sql 500 series parse boot_btc (minutes 0 161)
      empty btc [] [] [] boot_btc-CanBegin (refl, tt) (minutes-HasCandles, tt) refl refl

-- Before the threads run, and after a turn; the service waits for a third symbol.
abbrev boot_sol : Boot Fixed ℕ
boot_sol = record boot { forecasts = start.tables.forecasts ∷ inferred_state.tables.forecasts ∷ [] }

unlisted_waits_example :
    main arrays frames (record config { symbols = "SOLUSDT" ∷ [] }) 0 0 2 boot_sol rounds
    ≢ serving sleeps (first_service 0 0 boot_sol)
unfolding contains
unlisted_waits_example =
    unlisted_waits arrays stats arch xgb symbols 5 sql 500 frames
      (record config { symbols = "SOLUSDT" ∷ [] }) 0 0 2 start boot_sol rounds "SOLUSDT" sleeps
      (first_service 0 0 boot_sol) (omega arith) refl refl tt
      ((start, Reach.here, refl), ((inferred_state, three_steps, refl), tt))
