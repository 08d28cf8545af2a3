-- ===== src/FeatureEngineering/Stream/Late.antt =====
-- What is stored for a candle that comes after later ones. ingestion/main.go sends the live candles
-- while the backfill, in a goroutine of its own, still sends the earlier ones.
use portfolio_engine.Prelude.{
  ◌≤◌, ◌+◌, ◌≡◌, refl, List, [], ◌∷◌, ◌++◌, length, length-append, All-imp, le→leb, arith,
}
use portfolio_engine.Float.{Float}
use portfolio_engine.FeatureEngineering.Indicators.{Candle, Series, IsSeries, IsSorted, IsStrict}
use portfolio_engine.FeatureEngineering.Stream.{
  Write, min_buffer, price_row, feature_row, writes_of,
}

module _ {F : Type 0} where
  IsStrict-IsSorted : (df : List (Candle F)) → IsStrict df → IsSorted df
  IsStrict-IsSorted [] h = tt
  IsStrict-IsSorted (c ∷ df) h = (All-imp df (λ d k. omega arith) h.0, IsStrict-IsSorted df h.1)

module _ {F : Type 0} ⦃f : Float F⦄ (series : Series F) (laws : IsSeries F series) where
  -- With pandas as documented: if the buffer has candles, the last of which is `l`, and then
  -- earlier ones, the last of which is `c`, each part in order of time, no two at one time and 62 or
  -- more in all, then under the time of `c` those features are stored that are of `l`, the latest
  -- candle: the values that come for `l` when the same candles come in order.
  pub late_candle :
      (past live : List (Candle F)) (c l : Candle F)
      → IsStrict ((past ++ c ∷ []) ++ (live ++ l ∷ []))
      → 60 ≤ length past + length live
      → writes_of series c ((live ++ l ∷ []) ++ (past ++ c ∷ []))
        ≡ Write.price (price_row c)
          ∷ Write.features (record {
            time = c.time;
            symbol = c.symbol;
            values = (feature_row series l ((past ++ c ∷ []) ++ (live ++ l ∷ []))).values;
          })
          ∷ []
  unfolding feature_row
  late_candle past live c l strict enough =
      let ordered = (past ++ c ∷ []) ++ (live ++ l ∷ []) in
      let come = (live ++ l ∷ []) ++ (past ++ c ∷ []) in
      let long : min_buffer ≤ length come = omega (
        arith,
        length-append (live ++ l ∷ []) (past ++ c ∷ []),
        length-append live (l ∷ []),
        length-append past (c ∷ []),
      ) in
      rw
        (
          le→leb min_buffer (length come) long,
          laws.sort_index_blocks (live ++ l ∷ []) (past ++ c ∷ []) strict,
          laws.sort_index_sorted ordered (IsStrict-IsSorted ordered strict),
        )
        refl
