-- ===== src/FeatureEngineering/Indicators.antt =====
-- feature_engineering/features.py, and `_FEATURE_COLS` of feature_engineering/db.py.
pub mod Columns
use Prim.Native.String.{◌++◌ as str_append}
use portfolio_engine.Prelude.{
  ℕ, suc, String, Bool, Option, none, some, List, [], ◌∷◌, ◌++◌, map, length, All, ◌≤◌, ◌<◌, ◌≡◌,
  if◌then◌else◌,
}
use portfolio_engine.Float.{Float, ◌-◌, ◌*◌, ◌/◌, lit, sqrt, log, is_nan, nan}
use portfolio_engine.Dict.{Dict, map_values}

-- A candle of the buffer. A frame made of the buffer has a column for each field.
pub record Candle (F : Type 0) : Type 0 where
  pub symbol : String
  pub time : ℕ
  pub open_price : F
  pub high : F
  pub low : F
  pub close : F
  pub volume : F

module _ {F : Type 0} where
  -- In order of time, where equal times may follow one another.
  abbrev pub IsSorted : List (Candle F) → Type 0
  IsSorted [] = Unit
  IsSorted (c ∷ df) = All (λ d. c.time ≤ d.time) df × IsSorted df

  -- In order of time, and no two at one time.
  abbrev pub IsStrict : List (Candle F) → Type 0
  IsStrict [] = Unit
  IsStrict (c ∷ df) = All (λ d. c.time < d.time) df × IsStrict df

-- The aggregates that `rolling(window=w)` is asked for.
pub data Aggregate : Type 0 where
  mean : Aggregate
  std : Aggregate
  skew : Aggregate
  kurt : Aggregate
  total : Aggregate

-- What features.py uses of pandas: on a column, as a list, the rolling aggregates and `pct_change`,
-- and `sort_index` on a frame.
pub record Series (F : Type 0) : Type 0 where
  pub rolling : Aggregate → ℕ → List F → List F
  pub pct_change : List F → List F
  pub sort_index : List (Candle F) → List (Candle F)

-- A window, with its size as the texts of the column names have it.
pub record Window : Type 0 where
  pub size : ℕ
  pub label : String

abbrev pub rolling_windows : List Window
rolling_windows =
    record { size = 5; label = "5" }
    ∷ record { size = 15; label = "15" }
    ∷ record { size = 30; label = "30" }
    ∷ record { size = 60; label = "60" }
    ∷ []

module _ {F : Type 0} ⦃f : Float F⦄ where
  abbrev pub square : F → F
  square x = x * x

  -- The logarithms of the quotients of neighbours, for the price before.
  unfoldable pub log_returns_after : F → List F → List F
  log_returns_after previous [] = []
  log_returns_after previous (c ∷ close) = log (c / previous) ∷ log_returns_after c close

  -- `shift(1)` puts a NaN first.
  unfoldable pub log_returns : List F → List F
  unfolding log_returns_after
  log_returns [] = []
  log_returns (c ∷ close) = log (c / nan) ∷ log_returns_after c close

  abbrev pub log_range_squared : Candle F → F
  log_range_squared c = square (log (c.high / c.low))

  abbrev pub hl_range : Candle F → F
  hl_range c = (c.high - c.low) / c.close

  unfoldable pub last? : List F → Option F
  last? [] = none
  last? (x ∷ []) = some x
  last? (x ∷ y ∷ xs) = last? (y ∷ xs)

  -- `feats.iloc[-1]` of a column. The frame is not empty, and so no column is.
  unfoldable pub last_of : List F → F
  unfolding last?
  last_of column = elim (last? column) [ none ↦ nan | some x ↦ x ]

  -- NaN becomes NULL.
  abbrev pub or_null : F → Option F
  or_null x = if is_nan x then none else some x

  module _ (s : Series F) where
    unfoldable pub realized_vol : List F → ℕ → List F
    realized_vol returns window = map sqrt (s.rolling total window (map square returns))

    unfoldable pub parkinson_vol : List (Candle F) → ℕ → List F
    parkinson_vol df window =
        map (λ x. sqrt (x / (lit 4 0 * log (lit 2 0))))
          (s.rolling mean window (map log_range_squared df))

    -- The columns of one window, in the order in which the loop adds them.
    unfoldable pub window_features : List (Candle F) → List F → Window → Dict (List F)
    unfolding realized_vol parkinson_vol
    window_features df lr w =
        (str_append "ret_mean_" w.label, s.rolling mean w.size lr)
        ∷ (str_append "ret_std_" w.label, s.rolling std w.size lr)
        ∷ (str_append "realized_vol_" w.label, realized_vol lr w.size)
        ∷ (str_append "parkinson_vol_" w.label, parkinson_vol df w.size)
        ∷ (str_append "ret_skew_" w.label, s.rolling skew w.size lr)
        ∷ (str_append "ret_kurt_" w.label, s.rolling kurt w.size lr)
        ∷ (
          str_append "volume_mean_" w.label,
          s.rolling mean w.size (map (λ (c : Candle F). c.volume) df),
        )
        ∷ []

    unfoldable pub all_window_features : List (Candle F) → List F → List Window → Dict (List F)
    unfolding window_features
    all_window_features df lr [] = []
    all_window_features df lr (w ∷ ws) = window_features df lr w ++ all_window_features df lr ws

    unfoldable pub compute_features : List (Candle F) → Dict (List F)
    unfolding log_returns all_window_features
    compute_features df =
        let lr = log_returns (map (λ (c : Candle F). c.close) df) in
        ("log_return", lr)
        ∷ ("squared_return", map square lr)
        ∷ ("volume_roc", s.pct_change (map (λ (c : Candle F). c.volume) df))
        ∷ ("hl_range", map hl_range df)
        ∷ all_window_features df lr rolling_windows

    unfoldable pub latest_feature_row : List (Candle F) → Dict (Option F)
    unfolding compute_features last_of
    latest_feature_row df = map_values (λ column. or_null (last_of column)) (compute_features df)

-- What pandas documents of `sort_index`, which only moves rows.
pub record IsSeries (F : Type 0) ⦃f : Float F⦄ (s : Series F) : Type 0 where
  -- A frame whose index is sorted stays as it is.
  pub sort_index_sorted : (df : List (Candle F)) → IsSorted df → s.sort_index df ≡ df
  -- Later candles that stand before earlier ones come behind them.
  pub sort_index_blocks :
      (later earlier : List (Candle F))
      → IsStrict (earlier ++ later)
      → s.sort_index (later ++ earlier) ≡ earlier ++ later

-- `_FEATURE_COLS`
abbrev pub feature_cols : List String
feature_cols =
    "log_return" ∷ "squared_return" ∷ "volume_roc" ∷ "hl_range" ∷ "ret_mean_5" ∷ "ret_std_5"
    ∷ "realized_vol_5" ∷ "parkinson_vol_5" ∷ "ret_skew_5" ∷ "ret_kurt_5" ∷ "volume_mean_5"
    ∷ "ret_mean_15" ∷ "ret_std_15" ∷ "realized_vol_15" ∷ "parkinson_vol_15" ∷ "ret_skew_15"
    ∷ "ret_kurt_15" ∷ "volume_mean_15" ∷ "ret_mean_30" ∷ "ret_std_30" ∷ "realized_vol_30"
    ∷ "parkinson_vol_30" ∷ "ret_skew_30" ∷ "ret_kurt_30" ∷ "volume_mean_30" ∷ "ret_mean_60"
    ∷ "ret_std_60" ∷ "realized_vol_60" ∷ "parkinson_vol_60" ∷ "ret_skew_60" ∷ "ret_kurt_60"
    ∷ "volume_mean_60" ∷ []
