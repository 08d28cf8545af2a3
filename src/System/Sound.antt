-- ===== src/System/Sound.antt =====
-- What holds of the tables however the three services interleave, stop and start again.
use mathlib.Core.Path.{subst}
use portfolio_engine.Prelude.{ℕ, String, sym, List, [], take, All, All-imp, length, leb}
use portfolio_engine.Float.{Float, IsIeee}
use portfolio_engine.Dict.{get}
use portfolio_engine.Portfolio.States.History.{by_time}
use portfolio_engine.Database.{IsKeyed, time_key, pair_key}
use portfolio_engine.Portfolio.Numpy.{Numpy}
use portfolio_engine.Portfolio.Estimates.{Pandas}
use portfolio_engine.Portfolio.Rebalance.{Config}
use portfolio_engine.Portfolio.Rebalance.Ledger.{IsSolvent}
use portfolio_engine.Portfolio.Loop.Solvency.{check-IsSolvent, check-IsKeyed}
use portfolio_engine.Forecasting.Losses.{Sql}
use portfolio_engine.Forecasting.Garch.{Stats, Arch}
use portfolio_engine.Forecasting.Train.{Xgboost}
use portfolio_engine.Forecasting.Service.Threads.{IsSafe, Step-IsSafe}
use portfolio_engine.Forecasting.Service.Symbols.{AreListed, Step-AreListed}
use portfolio_engine.Forecasting.Service.Origin.{HasFeatures, Step-HasFeatures}
use portfolio_engine.FeatureEngineering.Indicators.{Candle, Series}
use portfolio_engine.FeatureEngineering.Stream.{
  Write, append, store_all, handle, writes_of, feature_key, min_buffer, price_row, feature_row,
}
use portfolio_engine.FeatureEngineering.Stream.Keyed.{
  HasKey-of_kept, two_writes, IsJoined, writes_of-IsJoined,
}
use portfolio_engine.System.Services.{Services, Turn, Turns, seen_by_portfolio}

module _ {F : Type 0} ⦃f : Float F⦄ (np : Numpy F) (stats : Stats F) (arch : Arch F)
    (xgb : Xgboost F) (symbols : List String) (forward_window : ℕ) (sql : Sql F)
    (rolling_loss_points : ℕ) (series : Series F) (pd : Pandas F) (c : Config F)
    (rebalance_hour rebalance_minute : ℕ) where
  abbrev All3 : Type 0
  All3 =
      Services np stats arch xgb symbols forward_window sql rolling_loss_points series pd c
        rebalance_hour rebalance_minute

  -- The tables of prices and features are keyed and joined, and no row of the start is lost; the
  -- forecasting service is safe; its forecasts are of its symbols, and of feature rows that are
  -- there; the times of the states are unique; and no stored equity is below 0.
  pub record IsSound (before s : All3) : Type 0 where
    pub joined : IsJoined before.stored s.stored
    pub threads_safe :
        IsSafe np stats arch xgb symbols forward_window sql rolling_loss_points
          before.threads.tables.forecasts s.threads
    pub listed :
        AreListed np stats arch xgb symbols forward_window sql rolling_loss_points
          s.threads.tables.forecasts
    pub featured : All (HasFeatures s.stored.features) s.threads.tables.forecasts
    pub states_keyed : IsKeyed by_time s.portfolio.world.states
    pub solvent : All IsSolvent s.portfolio.world.states

  -- After insertions that keep the tables joined.
  stored-IsSound :
      (before s : All3) (candle : Candle F) (buffer : List (Candle F)) (n : ℕ)
      → IsSound before s
      → let u = store_all (take n (writes_of series candle buffer)) s.stored in
        IsJoined before.stored u × All (HasFeatures u.features) s.threads.tables.forecasts
  stored-IsSound before s candle buffer n h =
      let j = h.joined in
      let own : IsJoined s.stored s.stored = record {
        prices_keyed = j.prices_keyed;
        features_keyed = j.features_keyed;
        priced = j.priced;
        prices_kept = λ r m. m;
        features_kept = λ r m. m;
      } in
      let grown = writes_of-IsJoined series n candle buffer s.stored s.stored own in
      (
        writes_of-IsJoined series n candle buffer before.stored s.stored j,
        All-imp s.threads.tables.forecasts
            (λ q k.
              HasKey-of_kept feature_key (q.symbol, q.time) s.stored.features _ grown.features_kept
                k)
            h.featured,
      )

  module _ (laws : IsIeee F) (before : All3) where
    Turn-IsSound :
        {s t : All3}
        → IsSound before s
        → Turn np stats arch xgb symbols forward_window sql rolling_loss_points series pd c
            rebalance_hour rebalance_minute s t
        → IsSound before t
    unfolding handle
    Turn-IsSound {s} h (Turn.handles candle e) =
        let buffer = append candle (get [] candle.symbol s.consumer.buffers) in
        let (joined, featured) =
          subst
            (λ ws.
              IsJoined before.stored (store_all ws s.stored)
              × All (HasFeatures (store_all ws s.stored).features) s.threads.tables.forecasts)
            (two_writes (leb min_buffer (length buffer)) (Write.price (price_row candle))
              (Write.features (feature_row series candle buffer)))
            (stored-IsSound before s candle buffer 2 h) in
        subst (IsSound before) (sym e) (record {
          joined = joined;
          threads_safe = h.threads_safe;
          listed = h.listed;
          featured = featured;
          states_keyed = h.states_keyed;
          solvent = h.solvent;
        })
    Turn-IsSound {s} h (Turn.stops candle n e) =
        let (joined, featured) = stored-IsSound before s candle _ n h in
        subst (IsSound before) (sym e) (record {
          joined = joined;
          threads_safe = h.threads_safe;
          listed = h.listed;
          featured = featured;
          states_keyed = h.states_keyed;
          solvent = h.solvent;
        })
    Turn-IsSound {s} {t} h (Turn.forecasts now step e) =
        let safe = h.threads_safe in
        subst (IsSound before) (sym e) (record {
          joined = h.joined;
          threads_safe =
              Step-IsSafe np stats arch xgb symbols forward_window sql rolling_loss_points laws
                before.threads.tables.forecasts
                (record {
                  usable = safe.usable;
                  usable_copy = safe.usable_copy;
                  keyed = safe.keyed;
                  vols = safe.vols;
                  kept = safe.kept;
                })
                step;
          listed =
              Step-AreListed np stats arch xgb symbols forward_window sql rolling_loss_points
                h.listed step;
          featured =
              Step-HasFeatures np stats arch xgb symbols forward_window sql rolling_loss_points
                h.featured step;
          states_keyed = h.states_keyed;
          solvent = h.solvent;
        })
    Turn-IsSound {s} h (Turn.forgets e) = subst (IsSound before) (sym e) (record {
      joined = h.joined;
      threads_safe = record {
        usable = tt;
        usable_copy = tt;
        keyed = h.threads_safe.keyed;
        vols = h.threads_safe.vols;
        kept = h.threads_safe.kept;
      };
      listed = h.listed;
      featured = h.featured;
      states_keyed = h.states_keyed;
      solvent = h.solvent;
    })
    Turn-IsSound {s} h (Turn.rebalances r e) = subst (IsSound before) (sym e) (record {
      joined = h.joined;
      threads_safe = h.threads_safe;
      listed = h.listed;
      featured = h.featured;
      states_keyed =
          check-IsKeyed np pd c rebalance_hour rebalance_minute r
            (seen_by_portfolio np stats arch xgb symbols forward_window sql rolling_loss_points
              series pd c rebalance_hour rebalance_minute s)
            h.states_keyed;
      solvent =
          check-IsSolvent np pd c rebalance_hour rebalance_minute laws r
            (seen_by_portfolio np stats arch xgb symbols forward_window sql rolling_loss_points
              series pd c rebalance_hour rebalance_minute s)
            h.solvent;
    })
    Turn-IsSound {s} h (Turn.schedules n e) = subst (IsSound before) (sym e) (record {
      joined = h.joined;
      threads_safe = h.threads_safe;
      listed = h.listed;
      featured = h.featured;
      states_keyed = h.states_keyed;
      solvent = h.solvent;
    })

    -- Under the laws of IEEE 754, however the three services interleave, stop (the consumer also
    -- between the two insertions for a candle) and start again, this stays so if it is so at first:
    -- the keys of prices, features, forecasts and states are unique; every forecast is of a feature
    -- row, and every feature row of a price row, of its symbol and time; no price or feature row of
    -- the start is lost or changed, nor a prediction or a realized volatility; every forecast is of
    -- a symbol of the forecasting service and has a GARCH volatility that is not below 0; the
    -- models can predict; and every stored equity is at least 0.
    pub Turns-IsSound :
        {s t : All3}
        → IsSound before s
        → Turns np stats arch xgb symbols forward_window sql rolling_loss_points series pd c
            rebalance_hour rebalance_minute s t
        → IsSound before t
    Turns-IsSound h Turns.here = h
    Turns-IsSound h (Turns.next turns turn) = Turn-IsSound (Turns-IsSound h turns) turn
