-- ===== src/Portfolio/Rebalance/Effects.antt =====
-- What a rebalance leaves in the table and in Redis, when it succeeds and when it fails.
use mathlib.Core.Path.{subst}
use portfolio_engine.Prelude.{
  ◌≤◌, ◌≡◌, ◌⊎◌, inl, inr, refl, ap, ◌∙◌, sym, Bool, true, false, Option, none, some, List, [], ◌∷◌,
  ◌++◌, All, arith,
}
use portfolio_engine.Float.{Float}
use portfolio_engine.Dict.{Dict}
use portfolio_engine.Database.{StateRow, IsKeyed, time_key}
use portfolio_engine.Portfolio.States.{LatestState, fetch_latest_portfolio_state}
use portfolio_engine.Portfolio.States.History.{by_time, insert_then_fetch}
use portfolio_engine.Portfolio.Numpy.{Numpy}
use portfolio_engine.Portfolio.Estimates.{Pandas}
use portfolio_engine.Portfolio.Rebalance.{
  Config, Payload, World, Env, plan, store, publish, after_store, after_plan, run_rebalance,
}

module _ {F : Type 0} ⦃f : Float F⦄ (np : Numpy F) (pd : Pandas F) (c : Config F) (env : Env F)
    (w : World F) where
  abbrev pub outcome : Bool × World F
  outcome = run_rebalance np pd c env w

  -- The state that a payload stands for, with the weights as the driver stores them.
  abbrev pub state_of : Payload F → Dict F → LatestState F
  state_of p stored = record {
    time = p.time;
    weights = stored;
    equity = p.equity;
    period_pnl = p.period_pnl;
    cumulative_pnl = p.cumulative_pnl;
  }

  abbrev pub IsOld : Payload F → Type 0
  IsOld p = All (λ (r : StateRow F). r.time ≤ p.time) w.states

  run_rebalance-stored :
      (p : Payload F) (stored : Dict F)
      → plan np pd c env w ≡ some p
      → env.adapt p.weights ≡ some stored
      → IsKeyed by_time w.states
      → IsOld p
      → (rows : List (StateRow F)) × (outcome
          ≡ publish env.xadd_works env.set_works p (record w { states = rows }))
        × (fetch_latest_portfolio_state rows ≡ some (state_of p stored))
        × IsKeyed by_time rows
  unfolding run_rebalance
  run_rebalance-stored p stored planned accepted keyed old =
      let (rows, e, fetched, k, _) =
        insert_then_fetch env.adapt p.time p.weights p.portfolio_vol p.sharpe_proxy p.equity
          p.transaction_cost p.turnover p.period_pnl p.cumulative_pnl w.states accepted keyed old in
      (rows, rw planned (ap (after_store env p w) e), fetched, k)

  -- If the calculation succeeds, the driver accepts the weights and both Redis commands work, and
  -- the stored times are unique and not later, then the run succeeds: the latest payload, the last
  -- entry of the stream, after the old ones, and the latest state in the table are all that of the
  -- calculation, with the weights as the driver stores them, and the times stay unique.
  pub run_rebalance-agrees :
      (p : Payload F) (stored : Dict F)
      → plan np pd c env w ≡ some p
      → env.adapt p.weights ≡ some stored
      → IsKeyed by_time w.states
      → IsOld p
      → env.xadd_works ≡ true
      → env.set_works ≡ true
      → (outcome.0 ≡ true)
        × (outcome.1.latest ≡ some p)
        × (outcome.1.stream ≡ w.stream ++ p ∷ [])
        × (fetch_latest_portfolio_state outcome.1.states ≡ some (state_of p stored))
        × IsKeyed by_time outcome.1.states
  unfolding publish
  run_rebalance-agrees p stored planned accepted keyed old x s =
      let (rows, e, fetched, k) = run_rebalance-stored p stored planned accepted keyed old in
      let w' : World F = record w { states = rows } in
      let done : publish env.xadd_works env.set_works p w'
          ≡ (true, record w' { stream = w.stream ++ p ∷ []; latest = some p }) =
        ground arith in
      let all = e ∙ done in
      (
        ap (λ r. r.0) all,
        ap (λ r. r.1.latest) all,
        ap (λ r. r.1.stream) all,
        ap (λ r. fetch_latest_portfolio_state r.1.states) all ∙ fetched,
        subst (λ (r : Bool × World F). IsKeyed by_time r.1.states) (sym all) k,
      )

  -- What a run that fails has changed.
  abbrev pub Leaves : Bool × World F → Type 0
  Leaves r =
      (r.1.latest ≡ w.latest)
      × (r.1.prices ≡ w.prices)
      × (r.1.forecasts ≡ w.forecasts)
      × ((r.1 ≡ w)
          ⊎ ((p : Payload F) × (plan np pd c env w ≡ some p)
              × (store env p w.states ≡ some r.1.states)
              × ((r.1.stream ≡ w.stream) ⊎ (r.1.stream ≡ w.stream ++ p ∷ []))))

  publish-Leaves :
      (x s : Bool) (p : Payload F) (rows : List (StateRow F))
      → plan np pd c env w ≡ some p
      → store env p w.states ≡ some rows
      → (publish x s p (record w { states = rows })).0 ≡ false
      → Leaves (publish x s p (record w { states = rows }))
  unfolding publish
  publish-Leaves true true p rows planned stored failed = cc
  publish-Leaves true false p rows planned stored failed =
      (refl, refl, refl, inr (p, planned, stored, inr refl))
  publish-Leaves false s p rows planned stored failed =
      (refl, refl, refl, inr (p, planned, stored, inl refl))

  after_store-Leaves :
      (p : Payload F) (rows : Option (List (StateRow F)))
      → plan np pd c env w ≡ some p
      → store env p w.states ≡ rows
      → (after_store env p w rows).0 ≡ false
      → Leaves (after_store env p w rows)
  after_store-Leaves p none planned stored failed = (refl, refl, refl, inl refl)
  after_store-Leaves p (some rows) planned stored failed =
      publish-Leaves env.xadd_works env.set_works p rows planned stored failed

  after_plan-Leaves :
      (p : Option (Payload F))
      → plan np pd c env w ≡ p
      → (after_plan env w p).0 ≡ false
      → Leaves (after_plan env w p)
  after_plan-Leaves none planned failed = (refl, refl, refl, inl refl)
  after_plan-Leaves (some p) planned failed =
      after_store-Leaves p (store env p w.states) planned refl failed

  -- A run that fails leaves the latest payload in Redis, the prices and the forecasts as they
  -- were; if it changes anything else, the calculation had succeeded and its state is stored, and
  -- the stream is as it was or has the payload appended.
  pub run_rebalance-Leaves : outcome.0 ≡ false → Leaves outcome
  unfolding run_rebalance
  run_rebalance-Leaves = after_plan-Leaves (plan np pd c env w) refl
