-- ===== src/Portfolio/Tests/Parts.antt =====
-- The theorems on the parts, applied to the data of Data.antt.
use portfolio_engine.Prelude.{
  ℕ, ◌+◌ as nat_add, ◌*◌ as nat_mul, ◌%◌, ◌≤◌, ◌<◌, ◌≡◌, ◌≢◌, ◌↔◌, refl, String, true, false, none,
  some, List, [], ◌∷◌, ◌++◌, Has, arith,
}
use portfolio_engine.Float.{◌≼◌, ◌+◌, ◌*◌, lit, zero, one}
use portfolio_engine.Float.Fixed.{Fixed, fixed_float, times, add_all}
use portfolio_engine.Float.Int.{◌-ℤ◌, ◌+ℤ◌}
use portfolio_engine.Database.{distinct_on, distinct_on_from}
use portfolio_engine.Dict.{lookup, map_values, get, insert}
use portfolio_engine.Portfolio.Prices.{fetch_latest_prices}
use portfolio_engine.Portfolio.Forecasts.{fetch_latest_forecasts}
use portfolio_engine.Float.Fixed.Laws.{Fixed-IsIeee}
use portfolio_engine.Dict.{Dict, contains}
use portfolio_engine.Database.{StateRow, PriceRow, IsKeyed, time_key}
use portfolio_engine.Portfolio.Schedule.{day, hour, minute, next_rebalance_from}
use portfolio_engine.Portfolio.Schedule.Daily.{next_rebalance_from-IsNext}
use portfolio_engine.Portfolio.Prices.{quote, compute_period_asset_returns}
use portfolio_engine.Portfolio.Prices.Lookahead.{
  IsLatestOf, fetch_latest_prices-IsLatest, no_lookahead,
}
use portfolio_engine.Portfolio.Allocator.{project_weights, inverse_vol_weights}
use portfolio_engine.Portfolio.Allocator.Cap.{project_weights-corner}
use portfolio_engine.Portfolio.Allocator.Projection.{IsLongOnly, project_weights-IsLongOnly}
use portfolio_engine.Portfolio.Allocator.InverseVol.{inverse_vol_weights-IsLongOnly}
use portfolio_engine.Portfolio.States.{fetch_latest_portfolio_state}
use portfolio_engine.Portfolio.States.History.{by_time, inserted, insert_then_fetch}
use portfolio_engine.Portfolio.Pnl.{compute_portfolio_pnl}
use portfolio_engine.Portfolio.Pnl.Bounds.{result, fee_lowers_equity}
use portfolio_engine.Portfolio.Tests.Arrays.{arrays, arrays-IsNumpy}
use portfolio_engine.Portfolio.Tests.Data.{
  symbols, price, prices, forecasts, even_weights, start_row,
}

abbrev two_days : ℕ
two_days = nat_mul 2 day

abbrev three_days : ℕ
three_days = nat_mul 3 day

abbrev after_two : ℕ
after_two = nat_add two_days 5

abbrev late : ℕ
late = nat_add (nat_mul 23 hour) (nat_mul 59 minute)

next_rebalance_from-IsNext_example :
    let next = next_rebalance_from 23 59 after_two in
    (after_two < next)
    × (next ≤ nat_add after_two day)
    × (next % day ≡ late)
    × ((t : ℕ) → after_two < t → t % day ≡ late → next ≤ t)
next_rebalance_from-IsNext_example =
    next_rebalance_from-IsNext 23 59 after_two (omega arith) (omega arith)

abbrev tomorrow : List (PriceRow Fixed)
tomorrow = price three_days "BTCUSDT" 120 ∷ []

no_lookahead_example :
    compute_period_asset_returns (prices ++ tomorrow) symbols day two_days
    ≡ compute_period_asset_returns prices symbols day two_days
no_lookahead_example =
    no_lookahead prices tomorrow symbols day two_days (omega arith) (omega arith, tt)

latest_eth :
    lookup "ETHUSDT" (fetch_latest_prices prices symbols two_days)
    ≡ some (record { time = two_days; close = lit 45 0 })
unfolding fetch_latest_prices distinct_on distinct_on_from lookup map_values contains insert
latest_eth = refl

latest_btc :
    lookup "BTCUSDT" (fetch_latest_forecasts forecasts symbols day)
    ≡ some (record { time = day; garch_vol = some (lit 2 2); xgb_vol = none })
unfolding fetch_latest_forecasts distinct_on distinct_on_from lookup map_values contains insert
latest_btc = refl

fetch_latest_prices-IsLatest_example :
    (r : PriceRow Fixed) × IsLatestOf "ETHUSDT" two_days prices r
    × (quote r ≡ record { time = two_days; close = lit 45 0 })
    × (contains "ETHUSDT" symbols ≡ true)
fetch_latest_prices-IsLatest_example =
    fetch_latest_prices-IsLatest prices symbols two_days "ETHUSDT"
      (record { time = two_days; close = lit 45 0 }) latest_eth

insert_then_fetch_example :
    (rows : List (StateRow Fixed)) × (inserted some two_days even_weights zero zero
        (lit 13 1)
        zero
        zero
        (lit 1 1)
        (lit 3 1)
        (start_row ∷ [])
      ≡ some rows)
    × (fetch_latest_portfolio_state rows
        ≡ some (record {
          time = two_days;
          weights = even_weights;
          equity = lit 13 1;
          period_pnl = lit 1 1;
          cumulative_pnl = lit 3 1;
        }))
    × IsKeyed by_time rows
    × ((q : StateRow Fixed) → q.time ≢ two_days → Has q rows ↔ Has q (start_row ∷ []))
insert_then_fetch_example =
    insert_then_fetch some two_days even_weights zero zero (lit 13 1) zero zero (lit 1 1) (lit 3 1)
      (start_row ∷ []) {stored = even_weights} refl (tt, tt) (omega arith, tt)

project_weights-corner_example :
    project_weights arrays (zero ∷ lit 9 1 ∷ zero ∷ []) (lit 6 1) 200
    ≡ some (zero {F = Fixed} ∷ one ∷ zero ∷ [])
unfolding ◌-ℤ◌ ◌+ℤ◌ times
project_weights-corner_example =
    project_weights-corner arrays Fixed-IsIeee arrays-IsNumpy (lit 6 1) refl refl (zero ∷ [])
      (lit 9 1) (zero ∷ []) 200 ((refl, tt), refl, (refl, tt)) refl

project_weights-IsLongOnly_example :
    (w : List Fixed) × (project_weights arrays (lit 9 1 ∷ lit 9 1 ∷ []) (lit 6 1) 200 ≡ some w)
    × IsLongOnly 2 w
project_weights-IsLongOnly_example =
    project_weights-IsLongOnly arrays Fixed-IsIeee arrays-IsNumpy (lit 6 1) refl refl
      (lit 9 1 ∷ lit 9 1 ∷ []) 200 (omega arith) (omega arith) (refl, (refl, tt))

inverse_vol_weights-IsLongOnly_example :
    (w : List Fixed) × (inverse_vol_weights arrays (lit 2 2 ∷ zero ∷ none ∷ []) (lit 6 1) ≡ some w)
    × IsLongOnly 3 w
inverse_vol_weights-IsLongOnly_example =
    inverse_vol_weights-IsLongOnly arrays Fixed-IsIeee arrays-IsNumpy (lit 6 1) refl refl
      (lit 2 2 ∷ zero ∷ none ∷ []) (omega arith) (omega arith)

abbrev all_btc : Dict Fixed
all_btc = ("BTCUSDT", one) ∷ []

abbrev gains : Dict Fixed
gains = ("BTCUSDT", lit 1 1) ∷ ("ETHUSDT", lit 2 1) ∷ []

abbrev listed : List String → List String
listed s = symbols

fee_lowers_equity_example :
    let r =
      result Fixed-IsIeee listed
        (some even_weights)
        (some gains)
        (some one)
        (some all_btc)
        (lit 1 3)
        zero
        false in
    r.equity ≼ one * (one + r.gross_return)
unfolding compute_portfolio_pnl add_all get
fee_lowers_equity_example =
    fee_lowers_equity Fixed-IsIeee listed (some even_weights) (some gains) (some one) (some all_btc)
      (lit 1 3) zero false (refl, (refl, tt)) (refl, tt) refl refl refl refl refl refl refl
