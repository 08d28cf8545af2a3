-- ===== src/System/Services.antt =====
-- The three services side by side on the tables that they share: a relation between the states
-- before and after a turn of one of them, or before and after it stops and starts again.
use portfolio_engine.Prelude.{ℕ, String, ◌≡◌, List, [], take}
use portfolio_engine.Float.{Float}
use portfolio_engine.Dict.{get}
use portfolio_engine.Portfolio.Numpy.{Numpy}
use portfolio_engine.Portfolio.Estimates.{Pandas}
use portfolio_engine.Portfolio.Rebalance.{Config}
use portfolio_engine.Portfolio.Loop.{Service as Loop, Round, check}
use portfolio_engine.Forecasting.Losses.{Sql}
use portfolio_engine.Forecasting.Garch.{Stats, Arch}
use portfolio_engine.Forecasting.Train.{Xgboost}
use portfolio_engine.Forecasting.Service.{Service as Threads, Step}
use portfolio_engine.FeatureEngineering.Indicators.{Candle, Series}
use portfolio_engine.FeatureEngineering.Stream.{
  Stored, Consumer, fresh, append, store_all, handle, writes_of,
}

module _ {F : Type 0} ⦃f : Float F⦄ (np : Numpy F) (stats : Stats F) (arch : Arch F)
    (xgb : Xgboost F) (symbols : List String) (forward_window : ℕ) (sql : Sql F)
    (rolling_loss_points : ℕ) (series : Series F) (pd : Pandas F) (c : Config F)
    (rebalance_hour rebalance_minute : ℕ) where
  -- `stored` has the tables of prices and features, `threads` those of forecasts and metrics, and
  -- `portfolio` that of the states. What a service has of the others' tables is what it last saw.
  pub record Services : Type 0 where
    pub consumer : Consumer F
    pub stored : Stored F
    pub threads : Threads np stats arch xgb symbols forward_window sql rolling_loss_points
    pub portfolio : Loop F

  -- What the forecasting service finds when it has a turn.
  abbrev pub seen_by_threads :
      ℕ → Services → Threads np stats arch xgb symbols forward_window sql rolling_loss_points
  seen_by_threads now s = record s.threads {
    tables = record s.threads.tables {
      now = now;
      prices = s.stored.prices;
      features = s.stored.features;
    };
  }

  -- What a round of the portfolio service finds.
  abbrev pub seen_by_portfolio : Services → Loop F
  seen_by_portfolio s = record s.portfolio {
    world = record s.portfolio.world {
      prices = s.stored.prices;
      forecasts = s.threads.tables.forecasts;
    };
  }

  pub data Turn (s : Services) : Services → Type 0 where
    -- The consumer handles a candle.
    handles :
        (candle : Candle F) {t : Services}
        → t ≡ record s {
          consumer = (handle series candle s.consumer s.stored).0;
          stored = (handle series candle s.consumer s.stored).1;
        }
        → Turn s t
    -- It stops after the first `n` insertions for a candle, and starts again.
    stops :
        (candle : Candle F) (n : ℕ) {t : Services}
        → t ≡ record s {
          consumer = fresh;
          stored =
              store_all
                (take n (
                  writes_of series candle
                    (append candle (get [] candle.symbol s.consumer.buffers))))
                s.stored;
        }
        → Turn s t
    -- A step of the forecasting service.
    forecasts :
        (now : ℕ) {t : Services}
        → Step np stats arch xgb symbols forward_window sql rolling_loss_points
            (seen_by_threads now s)
            t.threads
        → t ≡ record s { threads = t.threads }
        → Turn s t
    -- It starts again, without models.
    forgets :
        {t : Services}
        → t ≡ record s { threads = record s.threads { models = []; snapshot = [] } }
        → Turn s t
    -- A round of the portfolio service.
    rebalances :
        (r : Round F) {t : Services}
        → t ≡ record s {
          portfolio = check np pd c rebalance_hour rebalance_minute r (seen_by_portfolio s);
        }
        → Turn s t
    -- It starts again, and schedules anew.
    schedules :
        (next : ℕ) {t : Services}
        → t ≡ record s { portfolio = record s.portfolio { next_rebalance_at = next } }
        → Turn s t

  pub data Turns (s : Services) : Services → Type 0 where
    here : Turns s s
    next : {t u : Services} → Turns s t → Turn t u → Turns s u
