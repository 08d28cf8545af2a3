-- ===== src/Forecasting/Inference/Keeps.antt =====
-- What inference does to the forecasts that are stored already.
use portfolio_engine.Prelude.{
  ℕ, ◌-◌, String, ◌≡◌, refl, true, false, Option, none, some, List, [], ◌∷◌, map, All, All-append,
  Has, if-case,
}
use portfolio_engine.Float.{Float, is_nan}
use portfolio_engine.Dict.{Dict, lookup}
use portfolio_engine.Database.{ForecastRow, PriceRow, IsKeyed, pair_key}
use portfolio_engine.Portfolio.Forecasts.{is_given}
use portfolio_engine.Portfolio.Numpy.{Numpy}
use portfolio_engine.Portfolio.Schedule.{minute}
use portfolio_engine.Forecasting.Labels.{compute_forward_realized_vol}
use portfolio_engine.Forecasting.Losses.{Sql}
use portfolio_engine.Forecasting.Store.{
  fetch_prices_since, forecast_key, is_at, insert_forecasts, fetch_forecasts_missing_realized,
}
use portfolio_engine.Forecasting.Inference.{
  Bundle, Tables, value_at, update_of, updates_of, backfill_from, new_forecasts, infer_symbol,
  run_inference,
}
use portfolio_engine.Forecasting.Store.Changes.{
  Keeps, Keeps-trans, Misses, insert_forecasts-IsKeyed, Has-insert_forecasts,
  update_realized_vol-IsKeyed, Has-update_realized_vol, Has-update_missing, missing-others,
}

module _ {F : Type 0} ⦃f : Float F⦄ where
  update_of-Misses :
      (ts : ℕ) (s : String) (o : Option F) (r : ForecastRow F)
      → is_at s ts r ≡ false
      → Misses r (update_of ts s o)
  update_of-Misses ts s none r h = tt
  update_of-Misses ts s (some v) r h =
      if-case {A = List (F × ℕ × String)} (Misses r) (is_nan v) (λ _. tt) (λ _. (h, tt))

  updates_of-Misses :
      (s : String) (prices : List (PriceRow F)) (values : List F) (missing : List ℕ)
      (r : ForecastRow F)
      → All (λ ts. is_at s ts r ≡ false) missing
      → Misses r (updates_of s prices values missing)
  unfolding updates_of
  updates_of-Misses s prices values [] r h = tt
  updates_of-Misses s prices values (ts ∷ missing) r h =
      All-append (λ (u : F × ℕ × String). is_at u.2 u.1 r ≡ false)
        (update_of ts s (value_at ts prices values)) (updates_of s prices values missing)
        (update_of-Misses ts s (value_at ts prices values) r h.0)
        (updates_of-Misses s prices values missing r h.1)

  module _ (np : Numpy F) (window : ℕ) where
    backfill_from-Keeps :
        (s : String) (t : Tables F) (missing : List ℕ)
        → ((r : ForecastRow F)
            → Has r t.forecasts
            → is_given r.realized_vol ≡ true
            → All (λ ts. is_at s ts r ≡ false) missing)
        → Keeps t.forecasts (backfill_from np window s t missing)
    unfolding backfill_from
    backfill_from-Keeps s t [] h = λ r m. ((r, (refl, refl, refl, refl), m), λ _. m)
    backfill_from-Keeps s t (first ∷ missing) h =
        let prices = fetch_prices_since t.prices s (first - minute) in
        let rv =
          compute_forward_realized_vol np window (map (λ (q : PriceRow F). q.close) prices) in
        let updates = updates_of s prices rv (first ∷ missing) in
        λ r m. (
          Has-update_realized_vol updates t.forecasts r m,
          λ given.
              Has-update_missing updates t.forecasts r
                (updates_of-Misses s prices rv (first ∷ missing) r (h r m given)) m,
        )

    backfill_from-IsKeyed :
        (s : String) (t : Tables F) (missing : List ℕ)
        → IsKeyed forecast_key t.forecasts
        → IsKeyed forecast_key (backfill_from np window s t missing)
    unfolding backfill_from
    backfill_from-IsKeyed s t [] h = h
    backfill_from-IsKeyed s t (first ∷ missing) h = update_realized_vol-IsKeyed _ t.forecasts h

    -- The two tables before and after, with unique keys afterwards.
    abbrev pub Grows : Tables F → Tables F → Type 0
    Grows t u = IsKeyed forecast_key u.forecasts × Keeps t.forecasts u.forecasts

    module _ (sql : Sql F) (points : ℕ) where
      pub infer_symbol-Grows :
          (bundle : Option (Bundle F)) (s : String) (t : Tables F)
          → IsKeyed forecast_key t.forecasts
          → Grows t (infer_symbol np window sql points bundle s t)
      unfolding infer_symbol
      infer_symbol-Grows none s t h = (h, λ r m. ((r, (refl, refl, refl, refl), m), λ _. m))
      infer_symbol-Grows (some bundle) s t h =
          let inserted : Tables F = record t {
            forecasts = insert_forecasts (new_forecasts s bundle t) t.forecasts;
          } in
          let keyed : IsKeyed forecast_key inserted.forecasts =
            insert_forecasts-IsKeyed (new_forecasts s bundle t) t.forecasts h in
          let stays : Keeps t.forecasts inserted.forecasts = λ r m.
            let n = Has-insert_forecasts (new_forecasts s bundle t) t.forecasts r m in
            ((r, (refl, refl, refl, refl), n), λ _. n) in
          let missing = fetch_forecasts_missing_realized t.now inserted.forecasts s window in
          (
            backfill_from-IsKeyed s inserted missing keyed,
            Keeps-trans t.forecasts inserted.forecasts _ stays (
                backfill_from-Keeps s inserted missing
                  (λ r m given. missing-others t.now inserted.forecasts s window r keyed m given)),
          )

      -- If the keys of the stored forecasts are unique, they are so after a run of inference, with
      -- any models, failing ones too. Each stored forecast is still there with the predictions it
      -- had, and unchanged if it already had its realized volatility.
      pub run_inference-Grows :
          (models : Dict (Bundle F)) (symbols : List String) (t : Tables F)
          → IsKeyed forecast_key t.forecasts
          → Grows t (run_inference np window sql points models symbols t)
      unfolding run_inference
      run_inference-Grows models [] t h = (h, λ r m. ((r, (refl, refl, refl, refl), m), λ _. m))
      run_inference-Grows models (s ∷ symbols) t h =
          let u = infer_symbol np window sql points (lookup s models) s t in
          let (keyed, kept) = infer_symbol-Grows (lookup s models) s t h in
          let (k, more) = run_inference-Grows models symbols u keyed in
          (k, Keeps-trans t.forecasts u.forecasts _ kept more)
