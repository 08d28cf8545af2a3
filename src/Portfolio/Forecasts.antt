-- ===== src/Portfolio/Forecasts.antt =====
-- `fetch_latest_forecasts` of portfolio_engine/db.py.
pub mod Latest
use portfolio_engine.Prelude.{ℕ, String, Bool, Option, none, some, List, ◌&&◌, ◌||◌, leb}
use portfolio_engine.Dict.{Dict, contains, map_values}
use portfolio_engine.Database.{ForecastRow, where_true, distinct_on}
use portfolio_engine.Portfolio.Allocator.{Forecast}

module _ {F : Type 0} where
  -- `x IS NOT NULL`
  abbrev pub is_given : Option F → Bool
  is_given none = Bool.false
  is_given (some _) = Bool.true

  -- `symbol = ANY(symbols) AND time <= as_of AND (garch_vol IS NOT NULL OR xgb_vol IS NOT NULL)`
  abbrev pub is_usable : List String → ℕ → ForecastRow F → Bool
  is_usable symbols as_of r =
      contains r.symbol symbols && leb r.time as_of && (is_given r.garch_vol || is_given r.xgb_vol)

  abbrev pub forecast : ForecastRow F → Forecast F
  forecast r = record { time = r.time; garch_vol = r.garch_vol; xgb_vol = r.xgb_vol }

  unfoldable pub fetch_latest_forecasts : List (ForecastRow F) → List String → ℕ → Dict (Forecast F)
  fetch_latest_forecasts forecasts symbols as_of =
      map_values forecast
        (distinct_on (λ r. r.time) (λ r. r.symbol) (where_true (is_usable symbols as_of) forecasts))
