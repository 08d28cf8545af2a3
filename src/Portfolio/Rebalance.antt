-- ===== src/Portfolio/Rebalance.antt =====
-- `_run_rebalance` and `_publish` of portfolio_engine/main.py, with the settings of config.py.
pub mod Weights
pub mod Effects
pub mod Ledger
use portfolio_engine.Prelude.{
  ℕ, ◌*◌ as nat_mul, ◌-◌ as nat_sub, ◌/◌ as nat_div, String, Bool, true, false, ◌||◌, Option, none,
  some, List, [], ◌∷◌, ◌++◌, map, length, any, ◌>>=◌, if◌then◌else◌,
}
use portfolio_engine.Float.{Float, ◌+◌, ◌-◌, ◌*◌, ◌/◌, lit, lt, le, is_nan, zero, one, max}
use portfolio_engine.Dict.{Dict, insert, from_keys}
use portfolio_engine.Database.{PriceRow, ForecastRow, StateRow}
use portfolio_engine.Portfolio.Pnl.{Pnl, compute_portfolio_pnl}
use portfolio_engine.Portfolio.Prices.{compute_period_asset_returns}
use portfolio_engine.Portfolio.States.{
  LatestState, fetch_latest_portfolio_state, insert_portfolio_state,
}
use portfolio_engine.Portfolio.Numpy.{Numpy}
use portfolio_engine.Portfolio.Allocator.{
  zip_with, equal_weights, inverse_vol_weights, optimize_sharpe_proxy, portfolio_volatility,
  sharpe_proxy, choose_target_vols,
}
use portfolio_engine.Portfolio.Estimates.{Pandas, fetch_history, estimate_mu, estimate_covariance}
use portfolio_engine.Portfolio.Forecasts.{fetch_latest_forecasts}
use portfolio_engine.Portfolio.Schedule.{minute, day}

pub record Config (F : Type 0) : Type 0 where
  pub symbols : List String
  pub covariance_lookback_days : ℕ
  pub return_lookback_minutes : ℕ
  pub diagonal_shrinkage_lambda : F
  pub weight_cap : F
  pub turnover_fee_rate : F
  pub max_opt_iters : ℕ
  pub opt_step_size : F

-- The payload that is published, and whose columns are stored.
pub record Payload (F : Type 0) : Type 0 where
  pub time : ℕ
  pub weights : Dict F
  pub portfolio_vol : F
  pub sharpe_proxy : F
  pub equity : F
  pub transaction_cost : F
  pub turnover : F
  pub period_pnl : F
  pub cumulative_pnl : F

-- The tables and the Redis keys: the stream, whose entries are kept as payloads and not as the
-- texts that `str` and `json.dumps` make of them, and the latest payload.
pub record World (F : Type 0) : Type 0 where
  pub prices : List (PriceRow F)
  pub forecasts : List (ForecastRow F)
  pub states : List (StateRow F)
  pub stream : List (Payload F)
  pub latest : Option (Payload F)

-- What one run meets: the two clocks, Python's set order, the driver's adaptation of a dictionary,
-- and whether each of the two Redis commands succeeds.
pub record Env (F : Type 0) : Type 0 where
  pub now : ℕ
  pub db_now : ℕ
  pub iterate : List String → List String
  pub adapt : Dict F → Option (Dict F)
  pub xadd_works : Bool
  pub set_works : Bool

module _ {F : Type 0} ⦃f : Float F⦄ where
  -- `{s: float(w) for s, w in zip(symbols, weights)}`
  unfoldable pub weights_of : List String → List F → Dict F → Dict F
  unfolding insert
  weights_of (s ∷ symbols) (w ∷ weights) d = weights_of symbols weights (insert s w d)
  weights_of _ _ d = d

  -- `np.any(np.isnan(w)) or np.any(w < -1e-12)`
  abbrev pub is_unusable : List F → Bool
  is_unusable w = any is_nan w || any (λ x. lt x (zero - lit 1 12)) w

  -- What is taken over from the latest state, or the start of the history.
  abbrev pub previous : List String → ℕ → Option (LatestState F) → LatestState F
  previous symbols now_utc (some state) = state
  previous symbols now_utc none = record {
    time = nat_sub now_utc day;
    weights = from_keys (λ _. one / lit (length symbols) 0) symbols [];
    equity = one;
    period_pnl = zero;
    cumulative_pnl = zero;
  }

  -- `datetime.now(timezone.utc).replace(second=0, microsecond=0)`
  abbrev pub this_minute : Env F → ℕ
  this_minute env = nat_mul (nat_div env.now minute) minute

  abbrev pub model_vols_of : Config F → Env F → World F → List F
  model_vols_of c env w =
      choose_target_vols (fetch_latest_forecasts w.forecasts c.symbols (this_minute env)) c.symbols

  -- `_publish`, with whether each of its two commands works. `false` is a Redis error; what was
  -- written before it stays.
  unfoldable pub publish : (xadd_works set_works : Bool) → Payload F → World F → Bool × World F
  publish xadd_works set_works p w =
      if xadd_works
      then if set_works
        then (true, record w { stream = w.stream ++ p ∷ []; latest = some p })
        else (false, record w { stream = w.stream ++ p ∷ [] })
      else (false, w)

  -- The call of `insert_portfolio_state`.
  unfoldable pub store : Env F → Payload F → List (StateRow F) → Option (List (StateRow F))
  unfolding insert_portfolio_state
  store env p rows =
      insert_portfolio_state env.adapt p.time p.weights p.portfolio_vol p.sharpe_proxy p.equity
        p.transaction_cost p.turnover (some p.period_pnl) (some p.cumulative_pnl) rows

  -- After the insertion, which `none` says has raised.
  abbrev pub after_store : Env F → Payload F → World F → Option (List (StateRow F)) → Bool × World F
  after_store env p w none = (false, w)
  after_store env p w (some rows) =
      publish env.xadd_works env.set_works p (record w { states = rows })

  -- After the calculation, which `none` says has raised.
  abbrev pub after_plan : Env F → World F → Option (Payload F) → Bool × World F
  after_plan env w none = (false, w)
  after_plan env w (some p) = after_store env p w (store env p w.states)

  module _ (np : Numpy F) where
    -- The two allocations, and their blend when every model volatility is positive.
    unfoldable pub choose_weights : Config F → List F → List (List F) → List F → Option (List F)
    unfolding zip_with
    choose_weights c mu cov model_vols = do
      found ← optimize_sharpe_proxy np mu cov c.weight_cap c.max_opt_iters c.opt_step_size
      weights_opt ← if is_unusable found then equal_weights (length c.symbols) else some found
      weights_iv ← inverse_vol_weights np model_vols c.weight_cap
      some (
          if any (λ v. le v zero) model_vols
          then weights_opt
          else let blend = zip_with (λ a b. lit 5 1 * a + lit 5 1 * b) weights_opt weights_iv in
            map (λ w. w / np.array_sum blend) blend)

    -- The profit and loss of the period, from the previous state to `now_utc`.
    unfoldable pub period_pnl_of : Config F → Env F → World F → ℕ → LatestState F → Dict F → Pnl F
    unfolding compute_portfolio_pnl
    period_pnl_of c env w now_utc prev weights_dict =
        compute_portfolio_pnl env.iterate (some prev.weights)
          (some (compute_period_asset_returns w.prices c.symbols prev.time now_utc))
          (some prev.equity) (some weights_dict) c.turnover_fee_rate prev.cumulative_pnl false

    -- What is stored and published, from the estimates and the weights.
    unfoldable pub payload_of :
        Config F → Env F → World F → List F → List (List F) → List F → Payload F
    unfolding period_pnl_of
    payload_of c env w mu cov weights =
        let now_utc = this_minute env in
        let prev = previous c.symbols now_utc (fetch_latest_portfolio_state w.states) in
        let weights_dict = weights_of c.symbols weights [] in
        let pnl = period_pnl_of c env w now_utc prev weights_dict in
        let equity = max zero pnl.equity in
        let period_pnl = equity - prev.equity in
        record {
          time = now_utc;
          weights = weights_dict;
          portfolio_vol = portfolio_volatility np weights cov;
          sharpe_proxy = sharpe_proxy np weights mu cov;
          equity = equity;
          transaction_cost = pnl.transaction_cost;
          turnover = pnl.turnover;
          period_pnl = period_pnl;
          cumulative_pnl = prev.cumulative_pnl + period_pnl;
        }

    module _ (pd : Pandas F) where
      abbrev pub cov_of : Config F → Env F → World F → Option (List (List F))
      cov_of c env w =
          estimate_covariance pd
            (fetch_history env.db_now w.prices c.symbols (nat_mul c.covariance_lookback_days day))
            c.symbols c.diagonal_shrinkage_lambda

      abbrev pub mu_of : Config F → Env F → World F → Option (List F)
      mu_of c env w =
          estimate_mu pd
            (fetch_history env.db_now w.prices c.symbols (nat_mul c.return_lookback_minutes minute))
            c.symbols

      -- All that is computed before the first write; `none` is an exception.
      unfoldable pub plan : Config F → Env F → World F → Option (Payload F)
      plan c env w = do
        cov ← cov_of c env w
        mu ← mu_of c env w
        weights ← choose_weights c mu cov (model_vols_of c env w)
        some (payload_of c env w mu cov weights)

      -- The flag is `false` where an exception reaches the handler in `main`.
      unfoldable pub run_rebalance : Config F → Env F → World F → Bool × World F
      unfolding publish store
      run_rebalance c env w = after_plan env w (plan c env w)
