-- ===== src/Forecasting/Training.antt =====
-- `training_loop` of forecasting/main.py. A cycle is what `train_models` brings, `none` where it
-- raises, and the time that passes until the sleep.
pub mod Retry
pub mod Settles
pub mod Latest
use portfolio_engine.Prelude.{
  ℕ, ◌*◌, Bool, true, false, ◌||◌, String, Option, none, some, List, [], ◌∷◌, length, ltb,
  if◌then◌else◌,
}
use portfolio_engine.Float.{Float, ◌-◌, lit, one, max}
use portfolio_engine.Dict.{Dict, keys, update}
use portfolio_engine.Portfolio.Ready.{missing_of, is_empty}

-- SYMBOLS and the intervals of forecasting/config.py.
pub record Settings : Type 0 where
  pub symbols : List String
  pub retrain_interval_hours : ℕ
  pub training_empty_retry_seconds : ℕ
  pub training_partial_retry_seconds : ℕ

-- `retry_reason`
pub data Reason : Type 0 where
  missing_symbols no_models_available raised : Reason

pub record Cycle (F M : Type 0) : Type 0 where
  pub new_models : Option (Dict M)
  pub elapsed : F

abbrev pub missing_reason : List String → Option Reason
missing_reason [] = none
missing_reason (_ ∷ _) = some missing_symbols

module _ {M : Type 0} where
  -- The models after a cycle. An update by nothing changes nothing.
  abbrev pub models_after : Option (Dict M) → Dict M → Dict M
  models_after none models = models
  models_after (some new_models) models = update models new_models

  -- `retry_reason`, or none if there is no fast retry.
  unfoldable pub retry_of : List String → Dict M → Option (Dict M) → Option Reason
  retry_of symbols models none =
      let loaded_symbols = keys models in
      if is_empty loaded_symbols || ltb (length loaded_symbols) (length symbols)
      then some raised
      else none
  retry_of symbols [] (some []) = some no_models_available
  retry_of symbols (m ∷ models) (some []) = missing_reason (missing_of (keys (m ∷ models)) symbols)
  retry_of symbols models (some (m ∷ new_models)) =
      missing_reason (missing_of (keys (update models (m ∷ new_models))) symbols)

module _ {F : Type 0} ⦃f : Float F⦄ (s : Settings) where
  -- `sleep_s`
  unfoldable pub sleep_of : Option Reason → F → F
  sleep_of none elapsed = max one (lit (s.retrain_interval_hours * 3600) 0 - elapsed)
  sleep_of (some missing_symbols) elapsed = max one (lit s.training_partial_retry_seconds 0)
  sleep_of (some _) elapsed = max one (lit s.training_empty_retry_seconds 0)

  -- `while True` over the cycles that come: the models after them, and the sleeps.
  unfoldable pub training_loop : {M : Type 0} → List (Cycle F M) → Dict M → Dict M × List F
  unfolding retry_of sleep_of
  training_loop [] models = (models, [])
  training_loop (c ∷ cycles) models =
      let rest = training_loop cycles (models_after c.new_models models) in
      (rest.0, sleep_of (retry_of s.symbols models c.new_models) c.elapsed ∷ rest.1)
