-- ===== src/Forecasting/Training/Settles.antt =====
-- Which models the loop of the training has, and when it retries.
use portfolio_engine.Prelude.{◌⊎◌, String, List, [], ◌∷◌, All}
use portfolio_engine.Float.{Float}
use portfolio_engine.Dict.{Dict}
use portfolio_engine.Forecasting.Training.{Settings, Cycle}
use portfolio_engine.Forecasting.Training.Retry.{BringsOf, Brings}

module _ {F : Type 0} ⦃f : Float F⦄ {M : Type 0} (s : Settings) where
  -- Some cycle brings a model of the symbol.
  abbrev pub IsTrained : String → List (Cycle F M) → Type 0
  IsTrained symbol [] = ⊥
  IsTrained symbol (c ∷ cycles) = Brings symbol c.new_models ⊎ IsTrained symbol cycles

  -- Whatever a cycle brings is of the service's symbols.
  abbrev pub AreOf : List (Cycle F M) → Type 0
  AreOf cycles = All (λ (c : Cycle F M). BringsOf s.symbols c.new_models) cycles
