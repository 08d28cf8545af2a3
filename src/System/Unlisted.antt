-- ===== src/System/Unlisted.antt =====
-- A symbol that only the portfolio service is configured for.
use portfolio_engine.Prelude.{
  ℕ, ◌≤◌, ◌≡◌, ◌≢◌, refl, sym, ap, ◌∙◌, inl, inr, String, true, false, Bool-cases, List, [], ◌∷◌,
  All, get_elem?-All, arith, str_eq, eq_iff,
}
use mathlib.Core.Path.{subst}
use portfolio_engine.Float.{Float}
use portfolio_engine.Dict.{contains, All-contains}
use portfolio_engine.Database.{ForecastRow, where_true, where_true-All}
use portfolio_engine.Portfolio.Numpy.{Numpy}
use portfolio_engine.Portfolio.Estimates.{Pandas}
use portfolio_engine.Portfolio.Ready.{number_of}
use portfolio_engine.Portfolio.Ready.First.{has_vol}
use portfolio_engine.Portfolio.Rebalance.{Config}
use portfolio_engine.Portfolio.Loop.{Service, Round}
use portfolio_engine.Portfolio.Start.{Boot, Sleeps, serving, main}
use portfolio_engine.Portfolio.Start.Waits.{main_serves_iff}
use portfolio_engine.Forecasting.Losses.{Sql}
use portfolio_engine.Forecasting.Garch.{Stats, Arch}
use portfolio_engine.Forecasting.Train.{Xgboost}
use portfolio_engine.Forecasting.Service.{Service as Threads, Reach}
use portfolio_engine.Forecasting.Service.Symbols.{AreListed, Reach-AreListed}

number_of-unlisted :
    {F : Type 0} (symbols : List String) (s : String) (rows : List (ForecastRow F))
    → contains s symbols ≡ false
    → All (λ r. contains r.symbol symbols ≡ true) rows
    → number_of (λ r. r.symbol) s rows ≡ 0
unfolding number_of
number_of-unlisted symbols s [] foreign h = refl
number_of-unlisted symbols s (r ∷ rows) foreign h = elim (Bool-cases (str_eq r.symbol s)) [
  | inl same ↦ absurd (
      ground (arith, sym h.0 ∙ ap (λ j. contains j symbols) ((eq_iff r.symbol s).0 same) ∙ foreign))
  | inr other ↦ rw other (number_of-unlisted symbols s rows foreign h.1)
]

module _ {F : Type 0} ⦃f : Float F⦄ (np : Numpy F) (stats : Stats F) (arch : Arch F)
    (xgb : Xgboost F) (symbols : List String) (forward_window : ℕ) (sql : Sql F)
    (rolling_loss_points : ℕ) where
  -- A table of forecasts that the forecasting service leaves, at some time after the state `s`.
  abbrev pub IsLeft :
      Threads np stats arch xgb symbols forward_window sql rolling_loss_points
      → List (ForecastRow F)
      → Type 0
  IsLeft s poll =
      (u : Threads np stats arch xgb symbols forward_window sql rolling_loss_points) × Reach np
        stats arch xgb symbols forward_window sql rolling_loss_points s u
      × (u.tables.forecasts ≡ poll)

  module _ {C : Type 0} (pd : Pandas F) (c : Config F) (h m min_price_rows : ℕ) where
    -- If the portfolio service has a symbol that the forecasting service has not, waits for at
    -- least 1 price row, and the forecasts of the state `s` are all of the symbols of the
    -- forecasting service, then it never gets to its loop, however long it polls the forecasts that
    -- are there after `s`.
    pub unlisted_waits :
        (s : Threads np stats arch xgb symbols forward_window sql rolling_loss_points)
        (b : Boot F C) (rounds : List (Round F)) (symbol : String) (x : Sleeps) (v : Service F)
        → 1 ≤ min_price_rows
        → contains symbol c.symbols ≡ true
        → contains symbol symbols ≡ false
        → AreListed np stats arch xgb symbols forward_window sql rolling_loss_points
            s.tables.forecasts
        → All (IsLeft s) b.forecasts
        → main np pd c h m min_price_rows b rounds ≢ serving x v
    unlisted_waits s b rounds symbol x v pos has foreign listed left e =
        let (_, (_, _, (_, poll, at, enough)), _) =
          (main_serves_iff np pd c h m min_price_rows b rounds x v pos).0 e in
        let (u, reached, same) =
          get_elem?-All (IsLeft s) b.forecasts x.for_forecasts poll left at in
        let rows =
          where_true-All (λ (r : ForecastRow F). contains r.symbol symbols ≡ true) has_vol poll
            (subst (AreListed np stats arch xgb symbols forward_window sql rolling_loss_points) same
              (Reach-AreListed np stats arch xgb symbols forward_window sql rolling_loss_points
                listed reached)) in
        absurd (
          omega (
            arith,
            All-contains _ symbol c.symbols enough has,
            number_of-unlisted symbols symbol (where_true has_vol poll) foreign rows,
          ))
