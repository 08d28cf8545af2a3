-- ===== src/System/Pipeline.antt =====
-- The candles of the stream, and the waits of the other services.
use portfolio_engine.Prelude.{
  ℕ, ◌+◌, ◌≤◌, ◌≡◌, refl, ap, String, true, Option, some, List, [], ◌∷◌, length, All, All-imp,
  IsNodup, arith,
}
use portfolio_engine.Float.{Float}
use portfolio_engine.Database.{PriceRow, FeatureRow, where_true}
use portfolio_engine.Portfolio.Ready.{wait_for_prices}
use portfolio_engine.Portfolio.Ready.First.{wait_for_prices-IsFirst}
use portfolio_engine.Forecasting.Ready.{wait_for_features, wait_for_features-IsFirst}
use portfolio_engine.FeatureEngineering.Indicators.{Series}
use portfolio_engine.FeatureEngineering.Stream.{Message, Stored, fresh, run}
use portfolio_engine.FeatureEngineering.Stream.Bounded.{candles_of}
use portfolio_engine.FeatureEngineering.Stream.Times.{candle_times}
use portfolio_engine.FeatureEngineering.Stream.Counts.{prices_come, features_come}

where_true-all : {R : Type 0} (rows : List R) → where_true (λ r. true) rows ≡ rows
where_true-all [] = refl
where_true-all (r ∷ rows) = ap (λ l. r ∷ l) (where_true-all rows)

module _ {F : Type 0} ⦃f : Float F⦄ (series : Series F) (parse_float : String → Option F) where
  -- The symbol has `n` candles or more in the messages, each at a time of its own.
  abbrev pub HasCandles : List Message → ℕ → String → Type 0
  HasCandles ms n s =
      IsNodup (candle_times s (candles_of parse_float ms))
      × (n ≤ length (candle_times s (candles_of parse_float ms)))

  -- If each symbol has `n` candles or more, then after them the wait for prices ends with the next
  -- poll, for a minimum of up to `n`, and that for features, for a minimum of up to `n - 61`;
  -- whatever the tables had before.
  pub candles_end_waits :
      (symbols : List String) (n min_prices min_features : ℕ) (ms : List Message) (t : Stored F)
      (more_prices : List (List (PriceRow F))) (more_features : List (List (FeatureRow F)))
      → 1 ≤ min_prices
      → min_prices ≤ n
      → 1 ≤ min_features
      → 61 + min_features ≤ n
      → All (HasCandles ms n) symbols
      → let u = (run series parse_float ms fresh t).2 in
        (wait_for_prices symbols min_prices (u.prices ∷ more_prices) ≡ some 0)
        × (wait_for_features symbols min_features (u.features ∷ more_features) ≡ some 0)
  candles_end_waits symbols n min_prices min_features ms t more_prices more_features p pn q qn h =
      let u = (run series parse_float ms fresh t).2 in
      (
        (wait_for_prices-IsFirst symbols min_prices (u.prices ∷ more_prices) 0 p).1 (
          tt,
          u.prices,
          refl,
          All-imp symbols
              (λ s (nodup, enough).
                rw (where_true-all u.prices)
                  (omega (arith, prices_come series parse_float s ms t nodup)))
              h,
        ),
        (wait_for_features-IsFirst symbols min_features (u.features ∷ more_features) 0 q).1 (
          tt,
          u.features,
          refl,
          All-imp symbols
              (λ s (nodup, enough).
                rw (where_true-all u.features)
                  (omega (arith, features_come series parse_float s ms t nodup)))
              h,
        ),
      )
