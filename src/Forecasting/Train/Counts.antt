-- ===== src/Forecasting/Train/Counts.antt =====
-- What `train_models` counts.
use portfolio_engine.Prelude.{
  ℕ, suc, ◌+◌, ◌≡◌, refl, String, false, List, [], ◌∷◌, length, All, arith, str_eq, if◌then◌else◌,
}
use portfolio_engine.Float.{Float}
use portfolio_engine.Dict.{
  Dict, contains, keys, insert, IsDistinct, AreNew, AreNew-insert, length-insert,
}
use portfolio_engine.Portfolio.Numpy.{Numpy}
use portfolio_engine.Forecasting.Garch.{Stats, Arch}
use portfolio_engine.Forecasting.Train.{
  Xgboost, Source, Summary, Outcome, no_summary, Trained, Entry, count, keep, train_symbol,
  train_all, train_models,
}

module _ {F Fit Fitted : Type 0} where
  -- The models without a regressor that predicts.
  abbrev pub without_xgb : Dict (Trained F Fit Fitted) → ℕ
  without_xgb [] = 0
  without_xgb ((s, t) ∷ models) =
      let n = without_xgb models in if t.metrics.has_xgb then n else suc n

  without_xgb-insert :
      (s : String) (t : Trained F Fit Fitted) (models : Dict (Trained F Fit Fitted))
      → contains s (keys models) ≡ false
      → without_xgb (insert s t models)
        ≡ (if t.metrics.has_xgb then without_xgb models else suc (without_xgb models))
  unfolding contains keys insert
  without_xgb-insert s t [] h = refl
  without_xgb-insert s t ((k, u) ∷ models) h = ground (arith, without_xgb-insert s t models)

  -- The summary of the loop so far.
  pub record AddsUp (s : Summary) (models : Dict (Trained F Fit Fitted)) : Type 0 where
    pub every_outcome :
        s.skipped_no_data + s.skipped_not_enough + s.failed_symbols + length models ≡ s.attempted
    pub only_garch : s.garch_only_symbols ≡ without_xgb models

module _ {F : Type 0} ⦃f : Float F⦄ (np : Numpy F) (stats : Stats F) (arch : Arch F)
    (xgb : Xgboost F) where
  step-AddsUp :
      (symbol : String) (o : Outcome (Entry np stats arch xgb)) (s : Summary)
      (models : Dict (Entry np stats arch xgb))
      → contains symbol (keys models) ≡ false
      → AddsUp s models
      → AddsUp (count np stats arch xgb o s) (keep np stats arch xgb symbol o models)
  step-AddsUp symbol Outcome.no_data s models new h = ground arith
  step-AddsUp symbol Outcome.not_enough s models new h = ground arith
  step-AddsUp symbol Outcome.failed s models new h = ground arith
  step-AddsUp symbol (Outcome.trained t) s models new h =
      ground (arith, length-insert symbol t models new, without_xgb-insert symbol t models new)

  keep-AreNew :
      (symbol : String) (o : Outcome (Entry np stats arch xgb)) (symbols : List String)
      (models : Dict (Entry np stats arch xgb))
      → All (λ t. str_eq symbol t ≡ false) symbols
      → AreNew symbols models
      → AreNew symbols (keep np stats arch xgb symbol o models)
  keep-AreNew symbol Outcome.no_data symbols models h n = n
  keep-AreNew symbol Outcome.not_enough symbols models h n = n
  keep-AreNew symbol Outcome.failed symbols models h n = n
  keep-AreNew symbol (Outcome.trained t) symbols models h n =
      AreNew-insert symbol t symbols models h n

  count-attempted :
      (o : Outcome (Entry np stats arch xgb)) (s : Summary)
      → (count np stats arch xgb o s).attempted ≡ s.attempted + 1
  count-attempted Outcome.no_data s = refl
  count-attempted Outcome.not_enough s = refl
  count-attempted Outcome.failed s = refl
  count-attempted (Outcome.trained t) s = refl

  train_all-attempted :
      (source_of : String → Source F) (symbols : List String)
      (models : Dict (Entry np stats arch xgb)) (s : Summary)
      → (train_all np stats arch xgb source_of symbols models s).1.attempted
        ≡ s.attempted + length symbols
  unfolding train_all
  train_all-attempted source_of [] models s = omega arith
  train_all-attempted source_of (symbol ∷ symbols) models s =
      let o = train_symbol np stats arch xgb (source_of symbol) symbol in
      omega (
        arith,
        train_all-attempted source_of symbols (keep np stats arch xgb symbol o models)
            (count np stats arch xgb o s),
        count-attempted o s,
      )

  train_all-AddsUp :
      (source_of : String → Source F) (symbols : List String)
      (models : Dict (Entry np stats arch xgb)) (s : Summary)
      → IsDistinct symbols
      → AreNew symbols models
      → AddsUp s models
      → AddsUp
          (train_all np stats arch xgb source_of symbols models s).1
          (train_all np stats arch xgb source_of symbols models s).0
  unfolding train_all
  train_all-AddsUp source_of [] models s d n h = h
  train_all-AddsUp source_of (symbol ∷ symbols) models s d n h =
      let o = train_symbol np stats arch xgb (source_of symbol) symbol in
      train_all-AddsUp source_of symbols (keep np stats arch xgb symbol o models)
        (count np stats arch xgb o s) d.1 (keep-AreNew symbol o symbols models d.0 n.1)
        (step-AddsUp symbol o s models n.0 h)

  all-AreNew : (symbols : List String) → AreNew {V = Entry np stats arch xgb} symbols []
  unfolding contains keys
  all-AreNew [] = tt
  all-AreNew (s ∷ symbols) = (refl, all-AreNew symbols)

  -- If no symbol is listed twice, the summary of a training adds up: every symbol is attempted, and
  -- is skipped, failed or has a model; and the models that are counted as GARCH only are those
  -- without a regressor that predicts.
  pub train_models-AddsUp :
      (source_of : String → Source F) (symbols : List String)
      → IsDistinct symbols
      → let (models, s) = train_models np stats arch xgb source_of symbols in
        (s.attempted ≡ length symbols)
        × (s.skipped_no_data + s.skipped_not_enough + s.failed_symbols + length models
            ≡ length symbols)
        × (s.garch_only_symbols ≡ without_xgb models)
  unfolding train_models
  train_models-AddsUp source_of symbols d =
      let all = train_all-attempted source_of symbols [] no_summary in
      let sums =
        train_all-AddsUp source_of symbols [] no_summary d (all-AreNew symbols)
          (record { every_outcome = omega arith; only_garch = refl }) in
      (omega (arith, all), omega (arith, all, sums.every_outcome), sums.only_garch)
