-- ===== src/Forecasting/Train/Usable.antt =====
-- What the models that a training returns can predict.
use portfolio_engine.Prelude.{
  ◌≤◌, ◌≡◌, refl, inl, inr, String, Option, Option-cases, none, some, List, [], ◌∷◌, map, length,
  length-map, All, ltb, arith, if-case, ◌>>=◌, replicate,
}
use portfolio_engine.Float.{Float, IsIeee}
use portfolio_engine.Dict.{Dict, insert-All}
use portfolio_engine.Database.{FeatureRow}
use portfolio_engine.Portfolio.Numpy.{Numpy}
use portfolio_engine.Portfolio.Allocator.NoShort.{IsNotNegative}
use portfolio_engine.Forecasting.Garch.{Stats, Arch, GarchModel, fit, predict}
use portfolio_engine.Forecasting.Garch.Total.{predict-IsNotNegative}
use portfolio_engine.Forecasting.Train.{
  Xgboost, Source, TrainingRow, Sample, Summary, Outcome, no_summary, Metrics, Entry, count, keep,
  finish, mse, qlike, garch_only, xgb_metrics, predict_vol, outcome_of, present, train_samples,
  train_rows, samples_of, fetch_training_data, train_symbol, train_all, train_models,
}

module _ {F : Type 0} ⦃f : Float F⦄ (np : Numpy F) (stats : Stats F) (arch : Arch F)
    (xgb : Xgboost F) where
  -- The GARCH model predicts a volatility, which is not below 0, and was fitted to at least 100 rows.
  abbrev pub IsUsable : Entry np stats arch xgb → Type 0
  IsUsable t =
      ((v : F) × (predict stats arch 1 t.garch ≡ some v) × IsNotNegative v)
      × (100 ≤ t.metrics.samples)

  abbrev pub AreUsable : Dict (Entry np stats arch xgb) → Type 0
  AreUsable models = All (λ e. IsUsable e.1) models

  samples-xgb_metrics :
      (o : Option (List F)) (y : List F) (m : Metrics F)
      → (xgb_metrics np stats arch xgb o y m).samples ≡ m.samples
  samples-xgb_metrics none y m = refl
  samples-xgb_metrics (some p) y m = refl

  -- What an outcome with a model says.
  abbrev pub OutcomeIsUsable : Outcome (Entry np stats arch xgb) → Type 0
  OutcomeIsUsable (Outcome.trained t) = IsUsable t
  OutcomeIsUsable _ = Unit {0}

  keep-AreUsable :
      (symbol : String) (o : Outcome (Entry np stats arch xgb))
      (models : Dict (Entry np stats arch xgb))
      → OutcomeIsUsable o
      → AreUsable models
      → AreUsable (keep np stats arch xgb symbol o models)
  keep-AreUsable symbol Outcome.no_data models u h = h
  keep-AreUsable symbol Outcome.not_enough models u h = h
  keep-AreUsable symbol Outcome.failed models u h = h
  keep-AreUsable symbol (Outcome.trained t) models u h = insert-All IsUsable symbol t models u h

  module _ (laws : IsIeee F) where
    finish-IsUsable :
        (x : List (FeatureRow F)) (y : List F) (g : GarchModel F arch.Fit) (v : F)
        → predict stats arch 1 g ≡ some v
        → 100 ≤ length x
        → IsUsable (finish np stats arch xgb x y g v)
    unfolding finish
    finish-IsUsable x y g v e n =
        let metrics =
          garch_only np stats arch xgb (mse stats y (replicate (length y) v))
            (qlike stats y (replicate (length y) v)) (length x) in
        (
          (v, e, predict-IsNotNegative stats arch laws 1 g v e),
          omega (arith, samples-xgb_metrics (predict_vol xgb (xgb.fit_xgb x y) x) y metrics),
        )

    outcome_of-IsUsable :
        (x : List (FeatureRow F)) (y : List F)
        → 100 ≤ length x
        → OutcomeIsUsable (
            outcome_of np stats arch xgb (
              fit stats arch (some (present "log_return" x)) >>= λ garch.
              predict stats arch 1 garch >>= λ garch_const.
              some (finish np stats arch xgb x y garch garch_const)))
    outcome_of-IsUsable x y n =
        elim (Option-cases (fit stats arch (some (present "log_return" x)))) [
          | inl e ↦ rw e tt
          | inr (garch, e) ↦ rw e (elim (Option-cases (predict stats arch 1 garch)) [
            | inl p ↦ rw p tt
            | inr (v, p) ↦ rw p (finish-IsUsable x y garch v p n)
          ])
        ]

    train_samples-IsUsable :
        (samples : List (Sample F)) → OutcomeIsUsable (train_samples np stats arch xgb samples)
    unfolding train_samples
    train_samples-IsUsable samples =
        let x = map (λ (s : Sample F). s.row.features) samples in
        if-case {A = Outcome (Entry np stats arch xgb)} OutcomeIsUsable (ltb (length samples) 100)
          (λ _. tt)
          (λ e.
            outcome_of-IsUsable x _
              (ground (arith, length-map (λ (s : Sample F). s.row.features) samples)))

    train_symbol-IsUsable :
        (source : Source F) (symbol : String)
        → OutcomeIsUsable (train_symbol np stats arch xgb source symbol)
    unfolding train_symbol
    train_symbol-IsUsable source symbol = by_rows (
        fetch_training_data source.now source.features source.prices symbol
          source.rolling_window_days)
      where
        by_rows :
            (df : List (TrainingRow F)) → OutcomeIsUsable (train_rows np stats arch xgb source df)
        by_rows [] = tt
        by_rows (r ∷ df) = train_samples-IsUsable (samples_of np source (r ∷ df))

    train_all-AreUsable :
        (source_of : String → Source F) (symbols : List String)
        (models : Dict (Entry np stats arch xgb)) (s : Summary)
        → AreUsable models
        → AreUsable (train_all np stats arch xgb source_of symbols models s).0
    unfolding train_all
    train_all-AreUsable source_of [] models s h = h
    train_all-AreUsable source_of (symbol ∷ symbols) models s h =
        let o = train_symbol np stats arch xgb (source_of symbol) symbol in
        train_all-AreUsable source_of symbols (keep np stats arch xgb symbol o models)
          (count np stats arch xgb o s)
          (keep-AreUsable symbol o models (train_symbol-IsUsable (source_of symbol) symbol) h)

    pub train_models-AreUsable :
        (source_of : String → Source F) (symbols : List String)
        → AreUsable (train_models np stats arch xgb source_of symbols).0
    unfolding train_models
    train_models-AreUsable source_of symbols =
        train_all-AreUsable source_of symbols [] no_summary tt
