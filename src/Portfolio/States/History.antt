-- ===== src/Portfolio/States/History.antt =====
-- The table `portfolio_state` as the history of the portfolio.
use portfolio_engine.Prelude.{
  ℕ, ◌≤◌, ◌≡◌, ◌≢◌, ◌↔◌, ap, ◌∙◌, Option, some, List, All, Has, arith, inl, inr, Option-cases,
}
use mathlib.Core.Option
use mathlib.Core.Path.{subst}
use portfolio_engine.Float.{Float}
use portfolio_engine.Dict.{Dict}
use portfolio_engine.Database.{
  StateRow, newest, newest-IsLatest, newest-none, upsert, time_key, IsKeyed, Has-unique,
  upsert-IsKeyed, Has-upsert, Has-upsert_other, All-Has, upsert-All,
}
use portfolio_engine.Portfolio.States.{
  latest_state, fetch_latest_portfolio_state, insert_portfolio_state,
}

module _ {F : Type 0} ⦃f : Float F⦄ where
  abbrev pub by_time : StateRow F → ℕ
  by_time r = r.time

  newest-upsert :
      (row : StateRow F) (rows : List (StateRow F))
      → IsKeyed by_time rows
      → All (λ r. r.time ≤ row.time) rows
      → newest by_time (upsert by_time row rows) ≡ some row
  newest-upsert row rows h l = elim (Option-cases (newest by_time (upsert by_time row rows))) [
    | inl e ↦ absurd (subst (Has row) (newest-none by_time _ e) (Has-upsert by_time row rows))
    | inr (r, e) ↦
        let (m, top) = newest-IsLatest by_time (upsert by_time row rows) r e in
        let here = Has-upsert by_time row rows in
        let below =
          All-Has (λ q. q.time ≤ row.time) _ r
            (upsert-All by_time (λ q. q.time ≤ row.time) row rows (omega arith) l) m in
        let above = All-Has (λ q. q.time ≤ r.time) _ row top here in
        e
        ∙ ap some
            (Has-unique by_time _ r row (upsert-IsKeyed by_time row rows h) m here (omega arith))
  ]

  module _ (adapt : Dict F → Option (Dict F)) (ts : ℕ) (weights : Dict F)
      (vol sharpe equity cost turnover period cumulative : F) (rows : List (StateRow F)) where
    abbrev pub inserted : Option (List (StateRow F))
    inserted =
        insert_portfolio_state adapt ts weights vol sharpe equity cost turnover (some period)
          (some cumulative) rows

    -- If the driver accepts the weights, and the stored times are unique and not later than the
    -- one written, writing a portfolio state succeeds; the state is then what is read back as the
    -- latest, no row of another time is added or removed, and times stay unique.
    pub insert_then_fetch :
        {stored : Dict F}
        → adapt weights ≡ some stored
        → IsKeyed by_time rows
        → All (λ r. r.time ≤ ts) rows
        → (rows' : List (StateRow F)) × (inserted ≡ some rows')
          × (fetch_latest_portfolio_state rows'
              ≡ some (record {
                time = ts;
                weights = stored;
                equity = equity;
                period_pnl = period;
                cumulative_pnl = cumulative;
              }))
          × IsKeyed by_time rows'
          × ((q : StateRow F) → q.time ≢ ts → Has q rows' ↔ Has q rows)
    unfolding insert_portfolio_state fetch_latest_portfolio_state
    insert_then_fetch accepted h l = (
      _,
      ap (Option.map _) accepted,
      ap (Option.map latest_state) (newest-upsert _ rows h l),
      upsert-IsKeyed by_time _ rows h,
      Has-upsert_other by_time _ rows,
    )
