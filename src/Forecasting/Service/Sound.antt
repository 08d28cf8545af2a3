-- ===== src/Forecasting/Service/Sound.antt =====
-- What the forecasting service stores, however its threads interleave.
use portfolio_engine.Prelude.{ℕ, String, ◌≡◌, refl, Option, none, some, List, [], ◌∷◌, All, if-case}
use portfolio_engine.Float.{Float}
use portfolio_engine.Database.{FeatureRow, ForecastRow, insert_new-All, pair_key}
use portfolio_engine.Portfolio.Numpy.{Numpy}
use portfolio_engine.Portfolio.Allocator.NoShort.{IsNotNegative}
use portfolio_engine.Forecasting.Losses.{Sql}
use portfolio_engine.Forecasting.Store.{
  forecast_key, insert_forecasts, update_one, update_realized_vol, is_at,
}
use portfolio_engine.Forecasting.Inference.{
  Bundle, Tables, preds, predict, new_forecasts, backfill_from, infer_symbol,
}

module _ {F : Type 0} ⦃f : Float F⦄ where
  -- A volatility that is there and is not below 0.
  abbrev pub IsVol : Option F → Type 0
  IsVol o = (v : F) × (o ≡ some v) × IsNotNegative v

  abbrev pub HasVol : ForecastRow F → Type 0
  HasVol r = IsVol r.garch_vol

  preds-HasVol :
      (symbol : String) (g : Option F) (rows : List (FeatureRow F)) (vols : List (Option F))
      → IsVol g
      → All HasVol (preds symbol g rows vols)
  unfolding preds
  preds-HasVol symbol g (r ∷ rows) (x ∷ vols) h = (h, preds-HasVol symbol g rows vols h)
  preds-HasVol symbol g [] vols h = tt
  preds-HasVol symbol g (r ∷ rows) [] h = tt

  predict-HasVol :
      (symbol : String) (b : Bundle F) (valid : List (FeatureRow F))
      → IsVol b.garch_predict
      → All HasVol (predict symbol b valid)
  unfolding predict
  predict-HasVol symbol b [] h = tt
  predict-HasVol symbol b (r ∷ valid) h = preds-HasVol symbol b.garch_predict (r ∷ valid) _ h

  preds-OfSymbol :
      (P : String → Type 0) (symbol : String) (g : Option F) (rows : List (FeatureRow F))
      (vols : List (Option F))
      → P symbol
      → All (λ (r : ForecastRow F). P r.symbol) (preds symbol g rows vols)
  unfolding preds
  preds-OfSymbol P symbol g (r ∷ rows) (x ∷ vols) h = (h, preds-OfSymbol P symbol g rows vols h)
  preds-OfSymbol P symbol g [] vols h = tt
  preds-OfSymbol P symbol g (r ∷ rows) [] h = tt

  predict-OfSymbol :
      (P : String → Type 0) (symbol : String) (b : Bundle F) (valid : List (FeatureRow F))
      → P symbol
      → All (λ (r : ForecastRow F). P r.symbol) (predict symbol b valid)
  unfolding predict
  predict-OfSymbol P symbol b [] h = tt
  predict-OfSymbol P symbol b (r ∷ valid) h =
      preds-OfSymbol P symbol b.garch_predict (r ∷ valid) _ h

  insert_forecasts-All :
      (P : ForecastRow F → Type 0) (rows forecasts : List (ForecastRow F))
      → All P rows
      → All P forecasts
      → All P (insert_forecasts rows forecasts)
  unfolding insert_forecasts
  insert_forecasts-All P [] forecasts h g = g
  insert_forecasts-All P (r ∷ rows) forecasts h g =
      insert_forecasts-All P rows _ h.1 (insert_new-All forecast_key P r forecasts h.0 g)

  -- What a forecast keeps when it gets its realized volatility.
  module _ (P : ForecastRow F → Type 0)
      (stays : (v : F) (r : ForecastRow F) → P r → P (record r { realized_vol = some v })) where
    update_one-All :
        (v : F) (ts : ℕ) (symbol : String) (rows : List (ForecastRow F))
        → All P rows
        → All P (update_one v ts symbol rows)
    unfolding update_one
    update_one-All v ts symbol [] h = tt
    update_one-All v ts symbol (r ∷ rows) h = (
      if-case {A = ForecastRow F} P (is_at symbol ts r) (λ _. stays v r h.0) (λ _. h.0),
      update_one-All v ts symbol rows h.1,
    )

    update_realized_vol-All :
        (us : List (F × ℕ × String)) (rows : List (ForecastRow F))
        → All P rows
        → All P (update_realized_vol us rows)
    unfolding update_realized_vol
    update_realized_vol-All [] rows h = h
    update_realized_vol-All ((v, ts, s) ∷ us) rows h =
        update_realized_vol-All us (update_one v ts s rows) (update_one-All v ts s rows h)

    module _ (np : Numpy F) (window : ℕ) (sql : Sql F) (points : ℕ) where
      backfill_from-All :
          (symbol : String) (t : Tables F) (missing : List ℕ)
          → All P t.forecasts
          → All P (backfill_from np window symbol t missing)
      unfolding backfill_from
      backfill_from-All symbol t [] h = h
      backfill_from-All symbol t (first ∷ missing) h = update_realized_vol-All _ t.forecasts h

      pub infer_symbol-All :
          (b : Option (Bundle F)) (symbol : String) (t : Tables F)
          → ((x : Bundle F) → b ≡ some x → All P (new_forecasts symbol x t))
          → All P t.forecasts
          → All P (infer_symbol np window sql points b symbol t).forecasts
      unfolding infer_symbol
      infer_symbol-All none symbol t g h = h
      infer_symbol-All (some b) symbol t g h =
          let rows = new_forecasts symbol b t in
          let inserted : Tables F = record t { forecasts = insert_forecasts rows t.forecasts } in
          backfill_from-All symbol inserted _ (insert_forecasts-All P rows t.forecasts (g b refl) h)

  module _ (np : Numpy F) (window : ℕ) (sql : Sql F) (points : ℕ) where
    -- A turn with models whose GARCH model predicts, or without models.
    pub infer_symbol-HasVol :
        (b : Option (Bundle F)) (symbol : String) (t : Tables F)
        → ((x : Bundle F) → b ≡ some x → IsVol x.garch_predict)
        → All HasVol t.forecasts
        → All HasVol (infer_symbol np window sql points b symbol t).forecasts
    unfolding new_forecasts
    infer_symbol-HasVol b symbol t g h =
        infer_symbol-All HasVol (λ v r k. k) np window sql points b symbol t
          (λ x e. predict-HasVol symbol x _ (g x e)) h

    -- A turn makes forecasts of its symbol only.
    pub infer_symbol-OfSymbol :
        (P : String → Type 0) (b : Option (Bundle F)) (symbol : String) (t : Tables F)
        → P symbol
        → All (λ (r : ForecastRow F). P r.symbol) t.forecasts
        → All
            (λ (r : ForecastRow F). P r.symbol)
            (infer_symbol np window sql points b symbol t).forecasts
    unfolding new_forecasts
    infer_symbol-OfSymbol P b symbol t p h =
        infer_symbol-All (λ r. P r.symbol) (λ v r k. k) np window sql points b symbol t
          (λ x _. predict-OfSymbol P symbol x _ p) h
