-- ===== src/Portfolio/Tests/Data.antt =====
-- Two symbols over two days, a stored state, and an environment in which all calls work.
use portfolio_engine.Prelude.{ℕ, ◌+◌, ◌*◌, String, true, false, none, some, List, [], ◌∷◌}
use portfolio_engine.Float.{lit}
use portfolio_engine.Float.Fixed.{Fixed, fixed_float}
use portfolio_engine.Dict.{Dict}
use portfolio_engine.Database.{PriceRow, ForecastRow, StateRow}
use portfolio_engine.Portfolio.Schedule.{day}
use portfolio_engine.Portfolio.Rebalance.{Config, World, Env}
use portfolio_engine.Portfolio.Loop.{Service, Round}

abbrev pub symbols : List String
symbols = "BTCUSDT" ∷ "ETHUSDT" ∷ []

abbrev pub config : Config Fixed
config = record {
  symbols = symbols;
  covariance_lookback_days = 7;
  return_lookback_minutes = 120;
  diagonal_shrinkage_lambda = lit 1 6;
  weight_cap = lit 6 1;
  turnover_fee_rate = lit 1 3;
  max_opt_iters = 2;
  opt_step_size = lit 5 2;
}

abbrev pub price : ℕ → String → ℕ → PriceRow Fixed
price t s close = record {
  time = t;
  symbol = s;
  open_price = lit close 0;
  high = lit close 0;
  low = lit close 0;
  close = lit close 0;
  volume = lit 1 0;
}

abbrev pub prices : List (PriceRow Fixed)
prices =
    price day "BTCUSDT" 100
    ∷ price day "ETHUSDT" 50
    ∷ price (2 * day) "BTCUSDT" 110
    ∷ price (2 * day) "ETHUSDT" 45
    ∷ []

abbrev pub forecasts : List (ForecastRow Fixed)
forecasts =
    record {
      time = day;
      symbol = "BTCUSDT";
      garch_vol = some (lit 2 2);
      xgb_vol = none;
      realized_vol = none;
    }
    ∷ record {
      time = day;
      symbol = "ETHUSDT";
      garch_vol = some (lit 3 2);
      xgb_vol = some (lit 1 2);
      realized_vol = none;
    }
    ∷ []

abbrev pub even_weights : Dict Fixed
even_weights = ("BTCUSDT", lit 5 1) ∷ ("ETHUSDT", lit 5 1) ∷ []

abbrev pub start_row : StateRow Fixed
start_row = record {
  time = day;
  weights = even_weights;
  portfolio_vol = none;
  sharpe_proxy = none;
  equity = some (lit 12 1);
  transaction_cost = none;
  turnover = none;
  period_pnl = none;
  cumulative_pnl = some (lit 2 1);
}

abbrev pub world : World Fixed
world = record {
  prices = prices;
  forecasts = forecasts;
  states = start_row ∷ [];
  stream = [];
  latest = none;
}

abbrev pub env : Env Fixed
env = record {
  now = 2 * day + 30;
  db_now = 2 * day + 30;
  iterate = λ s. "BTCUSDT" ∷ "ETHUSDT" ∷ [];
  adapt = some;
  xadd_works = true;
  set_works = true;
}

abbrev pub redis_down : Env Fixed
redis_down = record env { xadd_works = false }

abbrev pub no_adapter : Env Fixed
no_adapter = record env { adapt = λ d. none }

abbrev pub rounds : List (Round Fixed)
rounds =
    record { now = 2 * day + 30; env = env; after = 2 * day + 40 }
    ∷ record { now = 2 * day + 60; env = env; after = 2 * day + 70 }
    ∷ []

abbrev pub service : Service Fixed
service = record { next_rebalance_at = 2 * day; world = world }
