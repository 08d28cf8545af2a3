-- ===== src/Forecasting/Service/Origin.antt =====
-- Of which feature rows the forecasting service makes forecasts.
use mathlib.Core.Path.{subst}
use portfolio_engine.Prelude.{
  ℕ, String, ◌≡◌, refl, sym, inl, inr, Option, List, [], ◌∷◌, All, All-imp, All-take, All-both,
  eq_iff, arith,
}
use portfolio_engine.Float.{Float}
use portfolio_engine.Dict.{lookup, map_values}
use portfolio_engine.Database.{
  FeatureRow, ForecastRow, Key, where_true-All, where_true_holds, order_by_time-All, pair_key,
}
use portfolio_engine.Portfolio.Numpy.{Numpy}
use portfolio_engine.Forecasting.Losses.{Sql}
use portfolio_engine.Forecasting.Garch.{Stats, Arch}
use portfolio_engine.Forecasting.Train.{Xgboost, bundle_of}
use portfolio_engine.Forecasting.Store.{forecast_key, fetch_unforecasted_features, is_unforecasted}
use portfolio_engine.Forecasting.Inference.{Bundle, Tables, preds, predict, new_forecasts}
use portfolio_engine.Forecasting.Service.{Service, Step}
use portfolio_engine.Forecasting.Service.Sound.{infer_symbol-All}
use portfolio_engine.FeatureEngineering.Stream.{feature_key}
use portfolio_engine.FeatureEngineering.Stream.Restart.{HasKey}

HasKey-All :
    {R K : Type 0} ⦃k : Key K⦄ (key : R → K) (rows : List R) (P : K → Type 0)
    → ((x : K) → HasKey key x rows → P x)
    → All (λ r. P (key r)) rows
HasKey-All key [] P g = tt
HasKey-All key (r ∷ rows) P g = (g (key r) (inl refl), HasKey-All key rows P (λ x h. g x (inr h)))

module _ {F : Type 0} ⦃f : Float F⦄ where
  -- There is a feature row of the forecast's symbol and time.
  abbrev pub HasFeatures : List (FeatureRow F) → ForecastRow F → Type 0
  HasFeatures features r = HasKey feature_key (forecast_key r) features

  preds-At :
      (P : String × ℕ → Type 0) (symbol : String) (g : Option F) (rows : List (FeatureRow F))
      (vols : List (Option F))
      → All (λ (r : FeatureRow F). P (symbol, r.time)) rows
      → All (λ (r : ForecastRow F). P (forecast_key r)) (preds symbol g rows vols)
  unfolding preds
  preds-At P symbol g (r ∷ rows) (x ∷ vols) h = (h.0, preds-At P symbol g rows vols h.1)
  preds-At P symbol g [] vols h = tt
  preds-At P symbol g (r ∷ rows) [] h = tt

  predict-At :
      (P : String × ℕ → Type 0) (symbol : String) (b : Bundle F) (valid : List (FeatureRow F))
      → All (λ (r : FeatureRow F). P (symbol, r.time)) valid
      → All (λ (r : ForecastRow F). P (forecast_key r)) (predict symbol b valid)
  unfolding predict
  predict-At P symbol b [] h = tt
  predict-At P symbol b (r ∷ valid) h = preds-At P symbol b.garch_predict (r ∷ valid) _ h

  fetched-At :
      (P : String × ℕ → Type 0) (features : List (FeatureRow F)) (forecasts : List (ForecastRow F))
      (symbol : String) (limit : ℕ)
      → All (λ (r : FeatureRow F). P (feature_key r)) features
      → All
          (λ (r : FeatureRow F). P (symbol, r.time))
          (fetch_unforecasted_features features forecasts symbol limit)
  unfolding fetch_unforecasted_features
  fetched-At P features forecasts symbol limit h =
      let wanted = is_unforecasted forecasts symbol in
      All-take _ limit _ (
        order_by_time-All (λ r. r.time) _ _
          (All-imp _
            (λ r (known, e).
              let same : r.symbol ≡ symbol = (eq_iff r.symbol symbol).0 (ground arith) in
              subst (λ s. P (s, r.time)) same known)
            (All-both _ _ _ (where_true-All _ wanted features h)
              (where_true_holds wanted features))))

  new_forecasts-HasFeatures :
      (symbol : String) (b : Bundle F) (t : Tables F)
      → All (HasFeatures t.features) (new_forecasts symbol b t)
  unfolding new_forecasts
  new_forecasts-HasFeatures symbol b t =
      let P : String × ℕ → Type 0 = λ x. HasKey feature_key x t.features in
      predict-At P symbol b _ (
        where_true-All _ _ _ (
          fetched-At P t.features t.forecasts symbol 5000
            (HasKey-All feature_key t.features P (λ x h. h))))

  module _ (np : Numpy F) (stats : Stats F) (arch : Arch F) (xgb : Xgboost F)
      (symbols : List String) (forward_window : ℕ) (sql : Sql F) (rolling_loss_points : ℕ) where
    abbrev Threads : Type 0
    Threads = Service np stats arch xgb symbols forward_window sql rolling_loss_points

    abbrev AllHave : List (FeatureRow F) → Threads → Type 0
    AllHave features s = All (HasFeatures features) s.tables.forecasts

    -- A step makes forecasts of the feature rows that it finds.
    pub Step-HasFeatures :
        {s t : Threads}
        → All (HasFeatures s.tables.features) s.tables.forecasts
        → Step np stats arch xgb symbols forward_window sql rolling_loss_points s t
        → All (HasFeatures s.tables.features) t.tables.forecasts
    Step-HasFeatures {s} h (Step.trains source_of e) = subst (AllHave s.tables.features) (sym e) h
    Step-HasFeatures {s} h (Step.copies e) = subst (AllHave s.tables.features) (sym e) h
    Step-HasFeatures {s} h (Step.infers symbol known e) =
        subst (AllHave s.tables.features) (sym e) (
          infer_symbol-All (HasFeatures s.tables.features) (λ v r k. k) np forward_window sql
            rolling_loss_points
            (lookup symbol (map_values (bundle_of np stats arch xgb) s.snapshot)) symbol s.tables
            (λ x _. new_forecasts-HasFeatures symbol x s.tables) h)
    Step-HasFeatures {s} h (Step.arrives now prices features e) =
        subst (AllHave s.tables.features) (sym e) h
