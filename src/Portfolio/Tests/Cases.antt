-- ===== src/Portfolio/Tests/Cases.antt =====
-- The theorems on the rebalance and the loop, applied to the data of Data.antt.
use portfolio_engine.Prelude.{
  ◌+◌, ◌*◌, ◌≤◌, ◌≡◌, refl, ap, ◌⊎◌, true, false, some, List, [], ◌∷◌, All, arith,
}
use portfolio_engine.Float.{lit, zero}
use portfolio_engine.Float.Fixed.{Fixed, fixed_float}
use portfolio_engine.Float.Fixed.Laws.{Fixed-IsIeee}
use portfolio_engine.Database.{IsKeyed, time_key}
use portfolio_engine.Portfolio.Schedule.{day}
use portfolio_engine.Portfolio.States.{fetch_latest_portfolio_state, insert_portfolio_state}
use portfolio_engine.Portfolio.States.History.{by_time}
use portfolio_engine.Portfolio.Rebalance.{
  Payload, plan, run_rebalance, choose_weights, publish, store, after_plan,
}
use portfolio_engine.Portfolio.Rebalance.Effects.{
  Leaves, outcome, state_of, run_rebalance-agrees, run_rebalance-Leaves,
}
use portfolio_engine.Portfolio.Rebalance.Ledger.{IsSolvent}
use portfolio_engine.Portfolio.Loop.Books.{IsGrown, serve-Books}
use portfolio_engine.Portfolio.Rebalance.Weights.{choose_weights-IsNotShort}
use portfolio_engine.Portfolio.Allocator.NoShort.{IsNotShort}
use portfolio_engine.Portfolio.Loop.{Round, serve}
use portfolio_engine.Portfolio.Loop.Solvency.{serve-IsSolvent}
use portfolio_engine.Portfolio.Loop.Pace.{runs, last_time, runs_bound}
use portfolio_engine.Portfolio.Tests.Arrays.{arrays, frames, arrays-IsNumpy}
use portfolio_engine.Portfolio.Tests.Data.{
  config, env, world, start_row, rounds, service, even_weights, redis_down,
}
use portfolio_engine.Portfolio.Estimates.{
  estimate_covariance, fetch_history, estimate_mu, add_matrices, diagonal, eye, to_return_matrix,
}
use portfolio_engine.Database.{
  order_by_time, distinct_on, distinct_on_from, newest, newest_from, place,
}
use portfolio_engine.Dict.{contains, get, from_keys, insert, keys, lookup, map_values}
use portfolio_engine.Portfolio.Rebalance.{payload_of, period_pnl_of, weights_of}
use portfolio_engine.Portfolio.Allocator.{
  optimize_sharpe_proxy, inverse_vol_weights, choose_target_vols, ascent, ascents, clip_all,
  equal_weights, free_count, normalize, portfolio_volatility, project_weights, raw_weights,
  rounds as allocator_rounds, sharpe_proxy, shift_free, zip_with,
}
use portfolio_engine.Float.Fixed.{add_all, divide, root, power, over, times}
use portfolio_engine.Portfolio.Tests.Arrays.{inner}
use portfolio_engine.Float.Int.{◌-ℤ◌, ◌+ℤ◌}
use portfolio_engine.Portfolio.Forecasts.{fetch_latest_forecasts}
use portfolio_engine.Portfolio.Pnl.{compute_portfolio_pnl}
use portfolio_engine.Portfolio.Prices.{compute_period_asset_returns, fetch_latest_prices}

serve-IsSolvent_example : All IsSolvent (serve arrays frames config 0 0 rounds service).world.states
serve-IsSolvent_example =
    serve-IsSolvent arrays frames config 0 0 Fixed-IsIeee rounds service
      ((lit 12 1, refl, refl), tt)

abbrev payload : Payload Fixed
payload = record {
  time = 2 * day;
  weights = even_weights;
  portfolio_vol = lit 707106781 12;
  sharpe_proxy = zero;
  equity = lit 12 1;
  transaction_cost = zero;
  turnover = zero;
  period_pnl = zero;
  cumulative_pnl = lit 2 1;
}

planned : plan arrays frames config env world ≡ some payload
unfolding estimate_covariance fetch_history order_by_time contains estimate_mu choose_weights
    optimize_sharpe_proxy add_all divide get inner root power ◌-ℤ◌ inverse_vol_weights
    choose_target_vols fetch_latest_forecasts distinct_on distinct_on_from newest newest_from place
    from_keys insert keys lookup map_values over times ◌+ℤ◌ ascent ascents clip_all equal_weights
    free_count normalize portfolio_volatility project_weights raw_weights allocator_rounds
    sharpe_proxy shift_free zip_with add_matrices diagonal eye to_return_matrix
    compute_portfolio_pnl compute_period_asset_returns fetch_latest_prices payload_of period_pnl_of
    weights_of fetch_latest_portfolio_state plan
planned = refl

planned_down : plan arrays frames config redis_down world ≡ some payload
unfolding estimate_covariance fetch_history order_by_time contains estimate_mu choose_weights
    optimize_sharpe_proxy add_all divide get inner root power ◌-ℤ◌ inverse_vol_weights
    choose_target_vols fetch_latest_forecasts distinct_on distinct_on_from newest newest_from place
    from_keys insert keys lookup map_values over times ◌+ℤ◌ ascent ascents clip_all equal_weights
    free_count normalize portfolio_volatility project_weights raw_weights allocator_rounds
    sharpe_proxy shift_free zip_with add_matrices diagonal eye to_return_matrix
    compute_portfolio_pnl compute_period_asset_returns fetch_latest_prices payload_of period_pnl_of
    weights_of fetch_latest_portfolio_state plan
planned_down = refl

failed_down : (outcome arrays frames config redis_down world).0 ≡ false
unfolding run_rebalance publish store insert_portfolio_state
failed_down = ap (λ p. (after_plan redis_down world p).0) planned_down

run_rebalance-agrees_example :
    let o = outcome arrays frames config env world in
    (o.0 ≡ true)
    × (o.1.latest ≡ some payload)
    × (o.1.stream ≡ payload ∷ [])
    × (fetch_latest_portfolio_state o.1.states
        ≡ some (state_of arrays frames config env world payload even_weights))
    × IsKeyed by_time o.1.states
run_rebalance-agrees_example =
    run_rebalance-agrees arrays frames config env world payload even_weights planned refl (tt, tt)
      (omega arith, tt) refl refl

-- Each run reads the clock after its round has.
abbrev timely : List (Round Fixed)
timely =
    record { now = 2 * day + 30; env = env; after = 2 * day + 40 }
    ∷ record { now = 3 * day; env = record env { now = 3 * day + 5 }; after = 3 * day + 10 }
    ∷ []

serve-Books_example :
    IsGrown (start_row ∷ []) (serve arrays frames config 0 0 timely service).world.states
serve-Books_example =
    serve-Books arrays frames config 0 0 timely service (omega arith) (omega arith)
      ((omega arith, omega arith), ((omega arith, omega arith), tt)) refl (omega arith, tt)

run_rebalance-Leaves_example :
    Leaves arrays frames config redis_down world (outcome arrays frames config redis_down world)
run_rebalance-Leaves_example =
    run_rebalance-Leaves arrays frames config redis_down world failed_down

abbrev flat : List (List Fixed)
flat = (lit 1 6 ∷ zero ∷ []) ∷ (zero ∷ lit 1 6 ∷ []) ∷ []

chosen :
    choose_weights arrays config (lit 1 3 ∷ zero ∷ []) flat (lit 2 2 ∷ lit 2 2 ∷ [])
    ≡ some (lit 533982131164 12 ∷ lit 466017868835 12 ∷ [])
unfolding estimate_covariance fetch_history order_by_time contains estimate_mu choose_weights
    optimize_sharpe_proxy add_all divide get inner root power ◌-ℤ◌ inverse_vol_weights
    choose_target_vols fetch_latest_forecasts distinct_on distinct_on_from newest newest_from place
    from_keys insert keys lookup map_values over times ◌+ℤ◌ ascent ascents clip_all equal_weights
    free_count normalize portfolio_volatility project_weights raw_weights allocator_rounds
    sharpe_proxy shift_free zip_with add_matrices diagonal eye to_return_matrix
    compute_portfolio_pnl compute_period_asset_returns fetch_latest_prices payload_of period_pnl_of
    weights_of fetch_latest_portfolio_state plan
chosen = refl

choose_weights-IsNotShort_example : IsNotShort (lit {F = Fixed} 55 2 ∷ lit 45 2 ∷ [])
choose_weights-IsNotShort_example =
    choose_weights-IsNotShort arrays Fixed-IsIeee arrays-IsNumpy config refl (lit 1 3 ∷ zero ∷ [])
      flat (lit 2 2 ∷ lit 2 2 ∷ []) (lit 533982131164 12 ∷ lit 466017868835 12 ∷ []) chosen

runs_bound_example :
    (runs arrays frames config 0 0 rounds service ≡ 0)
    ⊎ (2 * day + runs arrays frames config 0 0 rounds service * day
        ≤ last_time arrays frames config 0 0 (2 * day) rounds + day)
runs_bound_example =
    runs_bound arrays frames config 0 0 rounds (2 * day) service (omega arith) (omega arith)
      (omega arith, omega arith, (omega arith, omega arith, tt)) refl
