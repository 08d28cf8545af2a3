-- ===== src/System/Starts.antt =====
-- From the stream and the marks to the threads of the forecasting service.
use portfolio_engine.Prelude.{ℕ, ◌≡◌, refl, String, true, Option, List, [], ◌∷◌, All, arith}
use portfolio_engine.Float.{Float}
use portfolio_engine.Dict.{contains}
use portfolio_engine.Database.{FeatureRow}
use portfolio_engine.Tables.{forecasting_program}
use portfolio_engine.Tables.Begin.{CanBegin}
use portfolio_engine.Portfolio.Numpy.{Numpy}
use portfolio_engine.Portfolio.Ready.{BackfillRow}
use portfolio_engine.Forecasting.Ready.{wait_for_features-IsFirst}
use portfolio_engine.Forecasting.Ready.Marks.{mark_all, mark_then_wait, wait_for_backfill-IsFirst}
use portfolio_engine.Forecasting.Losses.{Sql}
use portfolio_engine.Forecasting.Garch.{Stats, Arch}
use portfolio_engine.Forecasting.Train.{Xgboost}
use portfolio_engine.Forecasting.Start.{Boot, threads, min_rows, first_state, main}
use portfolio_engine.Forecasting.Start.Safe.{main_threads_iff}
use portfolio_engine.FeatureEngineering.Indicators.{Series}
use portfolio_engine.FeatureEngineering.Stream.{Message, Stored, fresh, run}
use portfolio_engine.System.Pipeline.{HasCandles, candles_end_waits}

module _ {F C : Type 0} ⦃f : Float F⦄ (np : Numpy F) (stats : Stats F) (arch : Arch F)
    (xgb : Xgboost F) (symbols : List String) (forward_window : ℕ) (sql : Sql F)
    (rolling_loss_points : ℕ) (series : Series F) (parse_float : String → Option F) where
  -- If one of the ten attempts to connect works and the statements that make the tables succeed,
  -- and if the first polls find that every symbol has been marked, and what the consumer of the
  -- stream leaves when its messages have 161 candles or more of each symbol, at times of their own:
  -- then the threads of the forecasting service run without a sleep, with the models of the first
  -- training, whatever the tables of marks and features had before.
  pub candles_start_threads :
      (b : Boot F C) (ms : List Message) (t : Stored F) (marks : List String)
      (rows : List BackfillRow) (more_marks : List (List BackfillRow))
      (more_features : List (List (FeatureRow F)))
      → CanBegin b.attempt forecasting_program b.catalog
      → All (λ s. contains s marks ≡ true) symbols
      → All (HasCandles series parse_float ms 161) symbols
      → b.backfills ≡ mark_all marks rows ∷ more_marks
      → b.features ≡ (run series parse_float ms fresh t).2.features ∷ more_features
      → main np stats arch xgb symbols forward_window sql rolling_loss_points b
        ≡ threads
            (record { for_backfill = 0; for_features = 0 })
            (first_state np stats arch xgb symbols forward_window sql rolling_loss_points b)
  candles_start_threads b ms t marks rows more_marks more_features begun marked enough same same' =
      let (_, features) =
        candles_end_waits series parse_float symbols 161 1 min_rows ms t [] more_features
          (omega arith) (omega arith) (omega arith) (omega arith) enough in
      (main_threads_iff np stats arch xgb symbols forward_window sql rolling_loss_points b
          (record { for_backfill = 0; for_features = 0 })
          (first_state np stats arch xgb symbols forward_window sql rolling_loss_points b)).1
        (
          begun,
          (
            (wait_for_backfill-IsFirst symbols b.backfills 0).0
                (rw same (mark_then_wait symbols marks rows more_marks marked)),
            (wait_for_features-IsFirst symbols min_rows b.features 0 (omega arith)).0
                (rw same' features),
          ),
          refl,
        )
