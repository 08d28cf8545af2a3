-- ===== src/Portfolio/Pnl.antt =====
-- `compute_portfolio_pnl` of portfolio_engine/db.py.
pub mod Bounds
use portfolio_engine.Prelude.{String, Bool, Option, none, some, List, ◌++◌, map, if◌then◌else◌}
use portfolio_engine.Float.{Float, ◌+◌, ◌-◌, ◌*◌, lit, abs, sum, zero, one}
use portfolio_engine.Dict.{Dict, get, keys, or_else}

-- The dictionary that the function returns.
pub record Pnl (F : Type 0) : Type 0 where
  pub gross_return : F
  pub net_return : F
  pub turnover : F
  pub transaction_cost : F
  pub equity : F
  pub period_pnl : F
  pub cumulative_pnl : F

module _ {F : Type 0} ⦃f : Float F⦄ where
  -- `d or {}` of an argument that may be None.
  abbrev pub or_empty : Option (Dict F) → Dict F
  or_empty none = List.[]
  or_empty (some d) = d

  -- The weights after the trade: `new_weights or prev_weights`.
  abbrev pub or_previous : Option (Dict F) → Dict F → Dict F
  or_previous none prev = prev
  or_previous (some d) prev = or_else d prev

  abbrev pub return_term : Dict F → Dict F → String → F
  return_term prev returns s = get zero s prev * get zero s returns

  abbrev pub turnover_term : Dict F → Dict F → String → F
  turnover_term prev new s = abs (get zero s new - get zero s prev)

  abbrev pub scaled : Bool → F → F
  scaled half_l1_turnover l1_turnover =
      if half_l1_turnover then lit 5 1 * l1_turnover else l1_turnover

  -- `iterate` lists a set in Python's order, which depends on the hashes of its elements; it is
  -- given the union as a list of the three key views, with repetitions.
  unfoldable pub compute_portfolio_pnl :
      (iterate : List String → List String)
      → (prev_weights asset_returns : Option (Dict F)) → (prev_equity : Option F)
      → (new_weights : Option (Dict F)) → (transaction_cost_rate prev_cumulative_pnl : F)
      → (half_l1_turnover : Bool) → Pnl F
  compute_portfolio_pnl iterate prev_weights asset_returns prev_equity new_weights
        transaction_cost_rate prev_cumulative_pnl half_l1_turnover =
      let before : F = elim prev_equity [ none ↦ one | some e ↦ e ] in
      let prev = or_empty prev_weights in
      let returns = or_empty asset_returns in
      let new = or_previous new_weights prev in
      let symbols = iterate (keys prev ++ keys returns ++ keys new) in
      let gross_return = sum (map (return_term prev returns) symbols) in
      let l1_turnover = sum (map (turnover_term prev new) symbols) in
      let turnover = scaled half_l1_turnover l1_turnover in
      let transaction_cost = transaction_cost_rate * turnover in
      let net_return = gross_return - transaction_cost in
      let equity = before * (one + net_return) in
      let period_pnl = equity - before in
      record {
        gross_return = gross_return;
        net_return = net_return;
        turnover = turnover;
        transaction_cost = transaction_cost;
        equity = equity;
        period_pnl = period_pnl;
        cumulative_pnl = prev_cumulative_pnl + period_pnl;
      }
