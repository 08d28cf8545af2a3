-- ===== src/Forecasting/Service/Symbols.antt =====
-- Which symbols the forecasting service makes forecasts of.
use mathlib.Core.Path.{subst}
use portfolio_engine.Prelude.{ℕ, String, ◌≡◌, sym, true, List, All}
use portfolio_engine.Float.{Float}
use portfolio_engine.Dict.{contains, lookup, map_values}
use portfolio_engine.Database.{ForecastRow}
use portfolio_engine.Portfolio.Numpy.{Numpy}
use portfolio_engine.Forecasting.Losses.{Sql}
use portfolio_engine.Forecasting.Garch.{Stats, Arch}
use portfolio_engine.Forecasting.Train.{Xgboost, bundle_of}
use portfolio_engine.Forecasting.Service.{Service, Step, Reach}
use portfolio_engine.Forecasting.Service.Sound.{infer_symbol-OfSymbol}

module _ {F : Type 0} ⦃f : Float F⦄ (np : Numpy F) (stats : Stats F) (arch : Arch F)
    (xgb : Xgboost F) (symbols : List String) (forward_window : ℕ) (sql : Sql F)
    (rolling_loss_points : ℕ) where
  abbrev Threads : Type 0
  Threads = Service np stats arch xgb symbols forward_window sql rolling_loss_points

  -- Every forecast is of one of the service's symbols.
  abbrev pub AreListed : List (ForecastRow F) → Type 0
  AreListed = All (λ r. contains r.symbol symbols ≡ true)

  pub Step-AreListed :
      {s t : Threads}
      → AreListed s.tables.forecasts
      → Step np stats arch xgb symbols forward_window sql rolling_loss_points s t
      → AreListed t.tables.forecasts
  Step-AreListed h (Step.trains source_of e) =
      subst (λ (x : Threads). AreListed x.tables.forecasts) (sym e) h
  Step-AreListed h (Step.copies e) = subst (λ (x : Threads). AreListed x.tables.forecasts) (sym e) h
  Step-AreListed {s} h (Step.infers symbol known e) =
      subst (λ (x : Threads). AreListed x.tables.forecasts) (sym e)
        (infer_symbol-OfSymbol np forward_window sql rolling_loss_points
          (λ j. contains j symbols ≡ true)
          (lookup symbol (map_values (bundle_of np stats arch xgb) s.snapshot)) symbol s.tables
          known h)
  Step-AreListed h (Step.arrives now prices features e) =
      subst (λ (x : Threads). AreListed x.tables.forecasts) (sym e) h

  pub Reach-AreListed :
      {s t : Threads}
      → AreListed s.tables.forecasts
      → Reach np stats arch xgb symbols forward_window sql rolling_loss_points s t
      → AreListed t.tables.forecasts
  Reach-AreListed h Reach.here = h
  Reach-AreListed h (Reach.next r step) = Step-AreListed (Reach-AreListed h r) step
