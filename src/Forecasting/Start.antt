-- ===== src/Forecasting/Start.antt =====
-- `main` of forecasting/main.py: the connection and the tables, the waits, the first training and the
-- two threads, which are the steps of Service.
pub mod Safe
use mathlib.Core.Option
use portfolio_engine.Prelude.{
  ℕ, String, Bool, true, false, Option, none, some, List, [], ◌>>=◌, if◌then◌else◌,
}
use portfolio_engine.Float.{Float}
use portfolio_engine.Database.{FeatureRow}
use portfolio_engine.Database.Schema.{Catalog}
use portfolio_engine.Tables.{forecasting_program}
use portfolio_engine.Tables.Begin.{begins}
use portfolio_engine.Portfolio.Numpy.{Numpy}
use portfolio_engine.Portfolio.Ready.{BackfillRow}
use portfolio_engine.Forecasting.Ready.{wait_for_backfill, wait_for_features}
use portfolio_engine.Forecasting.Inference.{Tables}
use portfolio_engine.Forecasting.Losses.{Sql}
use portfolio_engine.Forecasting.Garch.{Stats, Arch}
use portfolio_engine.Forecasting.Train.{Xgboost, Source, train_models}
use portfolio_engine.Forecasting.Training.{models_after}
use portfolio_engine.Forecasting.Service.{Service}

-- What the start meets: the attempts to connect, the catalogue, the polls of the two waits, what
-- the first training reads, and the tables when the threads start.
pub record Boot (F C : Type 0) : Type 0 where
  pub attempt : ℕ → Option C
  pub catalog : Catalog
  pub backfills : List (List BackfillRow)
  pub features : List (List (FeatureRow F))
  pub source_of : String → Source F
  pub tables : Tables F

-- The sleeps of the two waits.
pub record Sleeps : Type 0 where
  pub for_backfill : ℕ
  pub for_features : ℕ

-- An exception has ended the process; it still waits; or its threads run, from a state.
pub data Process (S : Type 0) : Type 0 where
  ended : Process S
  waiting : Process S
  threads : Sleeps → S → Process S

abbrev pub started : {S : Type 0} → S → Option Sleeps → Process S
started s none = waiting
started s (some x) = threads x s

abbrev pub min_rows : ℕ
min_rows = 100

unfoldable pub waits : {F C : Type 0} → List String → Boot F C → Option Sleeps
waits symbols b = do
  x ← wait_for_backfill symbols b.backfills
  y ← wait_for_features symbols min_rows b.features
  some record { for_backfill = x; for_features = y }

module _ {F C : Type 0} ⦃f : Float F⦄ (np : Numpy F) (stats : Stats F) (arch : Arch F)
    (xgb : Xgboost F) (symbols : List String) (forward_window : ℕ) (sql : Sql F)
    (rolling_loss_points : ℕ) where
  -- After the first training; an update by no models changes nothing.
  unfoldable pub first_state :
      Boot F C → Service np stats arch xgb symbols forward_window sql rolling_loss_points
  first_state b = record {
    models = models_after (some (train_models np stats arch xgb b.source_of symbols).0) [];
    snapshot = [];
    tables = b.tables;
  }

  unfoldable pub main :
      Boot F C → Process (Service np stats arch xgb symbols forward_window sql rolling_loss_points)
  unfolding waits
  main b =
      if begins b.attempt forecasting_program b.catalog
      then started (first_state b) (waits symbols b)
      else ended
