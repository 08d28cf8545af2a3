-- ===== src/Portfolio/Rebalance/Ledger.antt =====
-- What rebalances record in the table of the states.
use mathlib.Core.Path.{subst}
use mathlib.Core.Option.{some-injective}
use portfolio_engine.Prelude.{
  ◌≡◌, refl, sym, Bool, true, false, Option, none, some, List, All, if-case, >>=-eq-some,
}
use portfolio_engine.Float.{Float, IsIeee, ◌≼◌, ◌+◌, ◌-◌, lt, zero, max}
use portfolio_engine.Dict.{Dict}
use portfolio_engine.Database.{StateRow, upsert, upsert-All, upsert-IsKeyed, IsKeyed, time_key}
use portfolio_engine.Portfolio.States.{fetch_latest_portfolio_state}
use portfolio_engine.Portfolio.States.History.{by_time}
use portfolio_engine.Portfolio.Numpy.{Numpy}
use portfolio_engine.Portfolio.Estimates.{Pandas}
use portfolio_engine.Portfolio.Rebalance.{
  Config, Payload, World, Env, previous, this_minute, payload_of, cov_of, mu_of, model_vols_of,
  choose_weights, plan, store, publish, after_store, after_plan, run_rebalance,
}

module _ {F : Type 0} ⦃f : Float F⦄ where
  -- `max(0.0, x)` is never negative or NaN.
  max_zero : (laws : IsIeee F) (x : F) → zero ≼ max zero x
  max_zero laws x =
      if-case {A = F} (λ y. zero ≼ y) (lt zero x) (laws.le_of_lt zero x) (λ _. laws.lit_nonneg 0 0)

  -- A state row whose equity is there and not negative, nor NaN.
  abbrev pub IsSolvent : StateRow F → Type 0
  IsSolvent r = (e : F) × (r.equity ≡ some e) × (zero ≼ e)

  abbrev pub row_of : Payload F → Dict F → StateRow F
  row_of p stored = record {
    time = p.time;
    weights = stored;
    portfolio_vol = some p.portfolio_vol;
    sharpe_proxy = some p.sharpe_proxy;
    equity = some p.equity;
    transaction_cost = some p.transaction_cost;
    turnover = some p.turnover;
    period_pnl = some p.period_pnl;
    cumulative_pnl = some p.cumulative_pnl;
  }

  module _ (np : Numpy F) (pd : Pandas F) (c : Config F) (env : Env F) (w : World F) where
    -- The time and the accounts of a payload, against the state before it.
    abbrev pub Accounts : Payload F → Type 0
    Accounts p =
        let prev = previous c.symbols p.time (fetch_latest_portfolio_state w.states) in
        (p.time ≡ this_minute env)
        × ((x : F) × (p.equity ≡ max zero x))
        × (p.period_pnl ≡ p.equity - prev.equity)
        × (p.cumulative_pnl ≡ prev.cumulative_pnl + (p.equity - prev.equity))

    payload_of-Accounts :
        (mu : List F) (cov : List (List F)) (weights : List F)
        → Accounts (payload_of np c env w mu cov weights)
    unfolding payload_of
    payload_of-Accounts mu cov weights = (refl, (_, refl), refl, refl)

    pub plan-Accounts : (p : Payload F) → plan np pd c env w ≡ some p → Accounts p
    unfolding plan
    plan-Accounts p e =
        let (cov, _, e₁) = >>=-eq-some (cov_of np pd c env w) _ e in
        let (mu, _, e₂) = >>=-eq-some (mu_of np pd c env w) _ e₁ in
        let (weights, _, e₃) =
          >>=-eq-some (choose_weights np c mu cov (model_vols_of c env w)) _ e₂ in
        subst Accounts (some-injective _ _ e₃) (payload_of-Accounts mu cov weights)

    -- What the table of the states is after a run: what it was, or with a row for a payload.
    module _ (Q : List (StateRow F) → Type 0) (before : Q w.states)
        (written : (p : Payload F) (stored : Dict F)
          → plan np pd c env w ≡ some p
          → env.adapt p.weights ≡ some stored
          → Q (upsert by_time (row_of p stored) w.states)) where
      publish-States :
          (x s : Bool) (p : Payload F) (rows : List (StateRow F))
          → Q rows
          → Q (publish x s p (record w { states = rows })).1.states
      unfolding publish
      publish-States true true p rows h = h
      publish-States true false p rows h = h
      publish-States false s p rows h = h

      after_store-States :
          (p : Payload F) (stored : Option (Dict F))
          → plan np pd c env w ≡ some p
          → env.adapt p.weights ≡ stored
          → Q (after_store env p w (store env p w.states)).1.states
      unfolding store
      after_store-States p none planned e = rw e before
      after_store-States p (some d) planned e =
          rw e (publish-States env.xadd_works env.set_works p _ (written p d planned e))

      after_plan-States :
          (p : Option (Payload F)) → plan np pd c env w ≡ p → Q (after_plan env w p).1.states
      after_plan-States none planned = before
      after_plan-States (some p) planned = after_store-States p (env.adapt p.weights) planned refl

      pub run_rebalance-States : Q (run_rebalance np pd c env w).1.states
      unfolding run_rebalance
      run_rebalance-States = after_plan-States (plan np pd c env w) refl

    -- The times of the states stay unique.
    pub run_rebalance-IsKeyed :
        IsKeyed by_time w.states → IsKeyed by_time (run_rebalance np pd c env w).1.states
    run_rebalance-IsKeyed h =
        run_rebalance-States (IsKeyed by_time) h
          (λ p stored _ _. upsert-IsKeyed by_time (row_of p stored) w.states h)

    pub run_rebalance-All :
        (P : StateRow F → Type 0)
        → All P w.states
        → ((p : Payload F) (stored : Dict F)
            → plan np pd c env w ≡ some p
            → env.adapt p.weights ≡ some stored
            → P (row_of p stored))
        → All P (run_rebalance np pd c env w).1.states
    run_rebalance-All P before written =
        run_rebalance-States (All P) before (λ p stored planned accepted.
          upsert-All by_time P (row_of p stored) w.states (written p stored planned accepted)
            before)

    -- A run keeps every stored equity at 0 or more, and never NaN, whatever it meets.
    pub run_rebalance-IsSolvent :
        IsIeee F → All IsSolvent w.states → All IsSolvent (run_rebalance np pd c env w).1.states
    run_rebalance-IsSolvent laws h = run_rebalance-All IsSolvent h λ p stored planned _.
        let (_, (x, e), _, _) = plan-Accounts p planned in
        (p.equity, refl, subst (λ y. zero ≼ y) (sym e) (max_zero laws x))
