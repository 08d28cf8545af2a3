-- ===== src/FeatureEngineering/Stream/Counts.antt =====
-- How many rows a run of the consumer leaves for a symbol.
use mathlib.Core.Path.{subst}
use portfolio_engine.Prelude.{
  ◌+◌, ◌≤◌, ◌≡◌, sym, ap, String, Option, List, [], length, length-drop, drop, IsNodup,
  length-le_of_Has, IsNodup-drop, arith,
}
use portfolio_engine.Float.{Float}
use portfolio_engine.Dict.{get}
use portfolio_engine.Database.{PriceRow, FeatureRow, pair_key}
use portfolio_engine.Portfolio.Ready.{number_of}
use portfolio_engine.FeatureEngineering.Indicators.{Series}
use portfolio_engine.FeatureEngineering.Stream.{Message, Stored, fresh, store_all, run, writes}
use portfolio_engine.FeatureEngineering.Stream.Restart.{run-writes}
use portfolio_engine.FeatureEngineering.Stream.Bounded.{candles_of}
use portfolio_engine.FeatureEngineering.Stream.Times.{
  price_times, feature_times, candle_times, number_of-times_of, store_all-IsDone, price_times-Has,
  feature_times-Has, price_times-writes, feature_times-writes,
}

module _ {F : Type 0} ⦃f : Float F⦄ (series : Series F) (parse_float : String → Option F) where
  -- If the candles of a symbol have times of their own, it has at least as many price rows after the
  -- messages, whatever the table had before.
  pub prices_come :
      (s : String) (ms : List Message) (t : Stored F)
      → IsNodup (candle_times s (candles_of parse_float ms))
      → length (candle_times s (candles_of parse_float ms))
        ≤ number_of (λ (r : PriceRow F). r.symbol) s (run series parse_float ms fresh t).2.prices
  prices_come s ms t nodup =
      let ws = writes series parse_float ms [] in
      let same = price_times-writes series parse_float s ms [] in
      let stored = price_times-Has s ws (store_all ws t) (store_all-IsDone ws t) in
      let count = length-le_of_Has (price_times s ws) _ (subst IsNodup (sym same) nodup) stored in
      subst
        (λ (u : Stored F).
          length (candle_times s (candles_of parse_float ms))
          ≤ number_of (λ (r : PriceRow F). r.symbol) s u.prices)
        (sym (run-writes series parse_float ms fresh t))
        (omega (
          arith,
          count,
          ap length same,
          number_of-times_of (λ (r : PriceRow F). r.symbol) (λ r. r.time) s (store_all ws t).prices,
        ))

  -- And feature rows from its 62nd candle on.
  pub features_come :
      (s : String) (ms : List Message) (t : Stored F)
      → IsNodup (candle_times s (candles_of parse_float ms))
      → length (candle_times s (candles_of parse_float ms))
        ≤ 61
          + number_of
              (λ (r : FeatureRow F). r.symbol)
              s
              (run series parse_float ms fresh t).2.features
  unfolding get
  features_come s ms t nodup =
      let ws = writes series parse_float ms [] in
      let times = candle_times s (candles_of parse_float ms) in
      let same : feature_times s ws ≡ drop 61 times =
        feature_times-writes series parse_float s ms [] in
      let stored = feature_times-Has s ws (store_all ws t) (store_all-IsDone ws t) in
      let count =
        length-le_of_Has (feature_times s ws) _
          (subst IsNodup (sym same) (IsNodup-drop 61 times nodup)) stored in
      subst
        (λ (u : Stored F).
          length times ≤ 61 + number_of (λ (r : FeatureRow F). r.symbol) s u.features)
        (sym (run-writes series parse_float ms fresh t))
        (omega (
          arith,
          count,
          ap length same,
          length-drop 61 times,
          number_of-times_of (λ (r : FeatureRow F). r.symbol) (λ r. r.time) s
              (store_all ws t).features,
        ))
