-- ===== src/Portfolio/Prices.antt =====
-- `fetch_latest_prices` and `compute_period_asset_returns` of portfolio_engine/db.py.
pub mod Lookahead
use portfolio_engine.Prelude.{
  ℕ, String, Bool, Option, none, some, List, [], ◌∷◌, ◌&&◌, leb, if◌then◌else◌,
}
use portfolio_engine.Float.{Float, ◌-◌, ◌/◌, le, zero, one}
use portfolio_engine.Dict.{Dict, contains, lookup, map_values, from_keys}
use portfolio_engine.Database.{PriceRow, where_true, distinct_on}

pub record Quote (F : Type 0) : Type 0 where
  pub time : ℕ
  pub close : F

module _ {F : Type 0} where
  abbrev pub quote : PriceRow F → Quote F
  quote r = record { time = r.time; close = r.close }

  -- The WHERE clause `symbol = ANY(symbols) AND time <= as_of`.
  abbrev pub is_wanted : List String → ℕ → PriceRow F → Bool
  is_wanted symbols as_of r = contains r.symbol symbols && leb r.time as_of

  unfoldable pub fetch_latest_prices : List (PriceRow F) → List String → ℕ → Dict (Quote F)
  fetch_latest_prices prices symbols as_of =
      map_values quote
        (distinct_on (λ r. r.time) (λ r. r.symbol) (where_true (is_wanted symbols as_of) prices))

module _ {F : Type 0} ⦃f : Float F⦄ where
  -- The loop's body, at the two look-ups.
  abbrev pub period_return : Option (Quote F) → Option (Quote F) → F
  period_return (some src) (some dst) =
      if le src.close zero then zero else dst.close / src.close - one
  period_return _ _ = zero

  unfoldable pub compute_period_asset_returns :
      List (PriceRow F) → List String → (from_time to_time : ℕ) → Dict F
  compute_period_asset_returns prices symbols from_time to_time =
      let from_prices = fetch_latest_prices prices symbols from_time in
      let to_prices = fetch_latest_prices prices symbols to_time in
      from_keys (λ s. period_return (lookup s from_prices) (lookup s to_prices)) symbols []
