-- ===== src/Forecasting/Tests/Start.antt =====
-- The start of the forecasting service, applied where each wait sleeps once.
use portfolio_engine.Prelude.{
  ℕ, ◌==◌, ◌≡◌, refl, ◌↔◌, none, some, [], ◌∷◌, ◌++◌, map, if◌then◌else◌,
}
use portfolio_engine.Float.Fixed.{Fixed, fixed_float}
use portfolio_engine.Float.Fixed.Laws.{Fixed-IsIeee}
use portfolio_engine.Dict.{contains, from_keys, keys, lookup}
use portfolio_engine.Database.{FeatureRow}
use portfolio_engine.Database.Schema.{execute_all}
use portfolio_engine.Database.Connect.{connect}
use portfolio_engine.Tables.{forecasting_program, ensure_tables, statements_of}
use portfolio_engine.Tables.Begin.{begins, CanBegin}
use portfolio_engine.Portfolio.Ready.{wait, missing_of, done_symbols, is_ready}
use portfolio_engine.Portfolio.Tests.Arrays.{arrays}
use portfolio_engine.Portfolio.Tests.Data.{symbols}
use portfolio_engine.Forecasting.Ready.{wait_for_backfill, wait_for_features}
use portfolio_engine.Forecasting.Service.{Service, Step, Reach}
use portfolio_engine.Forecasting.Service.Threads.{IsSafe}
use portfolio_engine.Forecasting.Start.{Boot, Sleeps, threads, waits, first_state, main}
use portfolio_engine.Forecasting.Start.Safe.{IsWaited, main_threads_iff, main_stays_IsSafe}
use portfolio_engine.Forecasting.Tests.Models.{stats, arch, xgb, source}
use portfolio_engine.Forecasting.Tests.Threads.{sql, start, inferred_state}

abbrev pub boot : Boot Fixed ℕ
boot = record {
  attempt = λ k. if k == 1 then none else some k;
  catalog = record { tables = []; indexes = [] };
  backfills = [] ∷ map (λ s. record { symbol = s; status = "done" }) symbols ∷ [];
  features =
      source.features
      ∷ (source.features
          ++ map (λ (r : FeatureRow Fixed). record r { symbol = "ETHUSDT" }) source.features)
      ∷ [];
  source_of = λ symbol. source;
  tables = start.tables;
}

abbrev sleeps : Sleeps
sleeps = record { for_backfill = 1; for_features = 1 }

abbrev trained : Service arrays stats arch xgb symbols 5 sql 500
trained = first_state arrays stats arch xgb symbols 5 sql 500 boot

runs : main arrays stats arch xgb symbols 5 sql 500 boot ≡ threads sleeps trained
unfolding main begins ensure_tables execute_all statements_of lookup keys connect waits
    wait_for_backfill contains wait_for_features from_keys wait missing_of done_symbols is_ready
runs = refl

-- The other thread copies the models, and a symbol has its turn.
turn : Reach arrays stats arch xgb symbols 5 sql 500 trained inferred_state
unfolding contains first_state
turn = Reach.next (Reach.next Reach.here (Step.copies refl)) (Step.infers "BTCUSDT" refl refl)

main_threads_iff_example :
    (main arrays stats arch xgb symbols 5 sql 500 boot ≡ threads sleeps trained) ↔ (
      CanBegin boot.attempt forecasting_program boot.catalog
      × IsWaited symbols boot sleeps
      × (first_state arrays stats arch xgb symbols 5 sql 500 boot ≡ trained))
main_threads_iff_example =
    main_threads_iff arrays stats arch xgb symbols 5 sql 500 boot sleeps trained

main_stays_IsSafe_example : IsSafe arrays stats arch xgb symbols 5 sql 500 [] inferred_state
main_stays_IsSafe_example =
    main_stays_IsSafe arrays stats arch xgb symbols 5 sql 500 Fixed-IsIeee boot sleeps trained
      inferred_state tt tt runs turn
