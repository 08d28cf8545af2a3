-- ===== src/Portfolio/States.antt =====
-- `insert_portfolio_state` and `fetch_latest_portfolio_state` of portfolio_engine/db.py.
pub mod History
use portfolio_engine.Prelude.{ℕ, Option, none, some, List}
use mathlib.Core.Option
use portfolio_engine.Float.{Float, zero, one}
use portfolio_engine.Dict.{Dict}
use portfolio_engine.Database.{StateRow, newest, upsert, time_key}

-- The dictionary that `fetch_latest_portfolio_state` returns.
pub record LatestState (F : Type 0) : Type 0 where
  pub time : ℕ
  pub weights : Dict F
  pub equity : F
  pub period_pnl : F
  pub cumulative_pnl : F

module _ {F : Type 0} ⦃f : Float F⦄ where
  -- `float(x) if x is not None else default`
  abbrev pub or_default : F → Option F → F
  or_default d none = d
  or_default d (some x) = x

  abbrev pub latest_state : StateRow F → LatestState F
  latest_state r = record {
    time = r.time;
    weights = r.weights;
    equity = or_default one r.equity;
    period_pnl = or_default zero r.period_pnl;
    cumulative_pnl = or_default zero r.cumulative_pnl;
  }

  unfoldable pub fetch_latest_portfolio_state : List (StateRow F) → Option (LatestState F)
  fetch_latest_portfolio_state rows = Option.map latest_state (newest (λ r. r.time) rows)

  -- `adapt` is what the database driver stores for a `dict` that is passed as a parameter; `none`
  -- is its refusal of the type, an exception that leaves the table as it was.
  unfoldable pub insert_portfolio_state :
      (adapt : Dict F → Option (Dict F))
      → (ts : ℕ) → (weights_json : Dict F)
      → (portfolio_vol sharpe_proxy equity transaction_cost turnover : F)
      → (period_pnl cumulative_pnl : Option F) → List (StateRow F)
      → Option (List (StateRow F))
  insert_portfolio_state adapt ts weights_json portfolio_vol sharpe_proxy equity transaction_cost
        turnover period_pnl cumulative_pnl rows =
      Option.map
        (λ weights.
          upsert (λ r. r.time)
            (record {
              time = ts;
              weights = weights;
              portfolio_vol = some portfolio_vol;
              sharpe_proxy = some sharpe_proxy;
              equity = some equity;
              transaction_cost = some transaction_cost;
              turnover = some turnover;
              period_pnl = period_pnl;
              cumulative_pnl = cumulative_pnl;
            })
            rows)
        (adapt weights_json)
