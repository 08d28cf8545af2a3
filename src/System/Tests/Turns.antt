-- ===== src/System/Tests/Turns.antt =====
-- The services from tables with one state, over turns of all three.
use portfolio_engine.Prelude.{◌*◌, ◌+◌, refl, some, [], take}
use portfolio_engine.Float.{lit}
use portfolio_engine.Float.Fixed.{Fixed, fixed_float}
use portfolio_engine.Float.Fixed.Laws.{Fixed-IsIeee}
use portfolio_engine.Dict.{contains, get}
use portfolio_engine.Portfolio.Schedule.{day}
use portfolio_engine.Portfolio.Loop.{Round, check}
use portfolio_engine.Portfolio.Tests.Arrays.{arrays, frames}
use portfolio_engine.Portfolio.Tests.Data.{symbols, config, env, service}
use portfolio_engine.Forecasting.Service.{Step, infer_turn}
use portfolio_engine.Forecasting.Training.{models_after}
use portfolio_engine.Forecasting.Train.{train_models}
use portfolio_engine.Forecasting.Tests.Models.{stats, arch, xgb, source}
use portfolio_engine.Forecasting.Tests.Threads.{sql, start}
use portfolio_engine.FeatureEngineering.Stream.{fresh, append, store_all, handle, writes_of}
use portfolio_engine.FeatureEngineering.Tests.{series, empty, candle}
use portfolio_engine.System.Services.{Services, Turn, Turns, seen_by_threads, seen_by_portfolio}
use portfolio_engine.System.Sound.{IsSound, Turns-IsSound}

abbrev Running : Type 0
Running = Services arrays stats arch xgb symbols 5 sql 500 series frames config 0 0

abbrev begun : Running
begun = record { consumer = fresh; stored = empty; threads = start; portfolio = service }

abbrev handled : Running
handled = record begun {
  consumer = (handle series candle begun.consumer begun.stored).0;
  stored = (handle series candle begun.consumer begun.stored).1;
}

abbrev stopped : Running
stopped = record handled {
  consumer = fresh;
  stored =
      store_all
        (take 1
          (writes_of series candle (append candle (get [] candle.symbol handled.consumer.buffers))))
        handled.stored;
}

abbrev trained : Running
trained =
    let seen =
      seen_by_threads arrays stats arch xgb symbols 5 sql 500 series frames config 0 0 (3 * day)
        stopped in
    record stopped {
      threads = record seen {
        models =
            models_after (some (train_models arrays stats arch xgb (λ s. source) symbols).0)
              seen.models;
      };
    }

abbrev inferred : Running
inferred =
    let seen =
      seen_by_threads arrays stats arch xgb symbols 5 sql 500 series frames config 0 0 (4 * day)
        trained in
    record trained {
      threads = record seen {
        tables =
            infer_turn arrays stats arch xgb symbols 5 sql 500 seen.snapshot "BTCUSDT" seen.tables;
      };
    }

abbrev round : Round Fixed
round = record { now = 2 * day + 30; env = env; after = 2 * day + 40 }

abbrev rebalanced : Running
rebalanced = record inferred {
  portfolio =
      check arrays frames config 0 0 round (
        seen_by_portfolio arrays stats arch xgb symbols 5 sql 500 series frames config 0 0
          inferred);
}

abbrev forgotten : Running
forgotten = record rebalanced { threads = record rebalanced.threads { models = []; snapshot = [] } }

turns : Turns arrays stats arch xgb symbols 5 sql 500 series frames config 0 0 begun forgotten
unfolding contains
turns =
    Turns.next
      (Turns.next
        (Turns.next
          (Turns.next
            (Turns.next (Turns.next Turns.here (Turn.handles candle refl))
              (Turn.stops candle 1 refl))
            (Turn.forecasts (3 * day) (Step.trains (λ s. source) refl) refl))
          (Turn.forecasts (4 * day) (Step.infers "BTCUSDT" refl refl) refl))
        (Turn.rebalances round refl))
      (Turn.forgets refl)

begun-IsSound : IsSound arrays stats arch xgb symbols 5 sql 500 series frames config 0 0 begun begun
begun-IsSound = record {
  joined = record {
    prices_keyed = tt;
    features_keyed = tt;
    priced = tt;
    prices_kept = λ r m. m;
    features_kept = λ r m. m;
  };
  threads_safe = record {
    usable = tt;
    usable_copy = tt;
    keyed = tt;
    vols = tt;
    kept = λ r m. elim m [ ];
  };
  listed = tt;
  featured = tt;
  states_keyed = (tt, tt);
  solvent = ((lit 12 1, refl, refl), tt);
}

Turns-IsSound_example :
    IsSound arrays stats arch xgb symbols 5 sql 500 series frames config 0 0 begun forgotten
Turns-IsSound_example =
    Turns-IsSound arrays stats arch xgb symbols 5 sql 500 series frames config 0 0 Fixed-IsIeee
      begun begun-IsSound turns
