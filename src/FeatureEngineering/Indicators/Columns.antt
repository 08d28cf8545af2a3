-- ===== src/FeatureEngineering/Indicators/Columns.antt =====
-- The names of the columns, in features.py and in db.py.
use portfolio_engine.Prelude.{◌≡◌, refl, List}
use portfolio_engine.Float.{Float}
use portfolio_engine.Dict.{keys, map_values}
use portfolio_engine.FeatureEngineering.Indicators.{
  Candle, Series, latest_feature_row, feature_cols,
}

module _ {F : Type 0} ⦃f : Float F⦄ (s : Series F) where
  -- The features that are computed are, in this order, the columns that are stored: no feature is
  -- lost, and no column is left NULL for want of a feature of its name.
  keys-latest_feature_row : (df : List (Candle F)) → keys (latest_feature_row s df) ≡ feature_cols
  unfolding keys latest_feature_row map_values
  keys-latest_feature_row df = refl
