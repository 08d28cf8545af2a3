-- ===== src/Forecasting/Service/Threads.antt =====
-- The steps of the forecasting service in any order.
use mathlib.Core.Path.{subst}
use portfolio_engine.Prelude.{ℕ, String, ◌≡◌, refl, sym, ◌∙◌, map-eq-some, some, List, [], ◌∷◌, All}
use portfolio_engine.Float.{Float, IsIeee}
use portfolio_engine.Dict.{
  Dict, lookup, map_values, update-All, lookup-All, lookup-map_values, IsWithin, IsWithin-refl,
}
use portfolio_engine.Database.{ForecastRow, IsKeyed, pair_key}
use portfolio_engine.Portfolio.Numpy.{Numpy}
use portfolio_engine.Forecasting.Store.{forecast_key}
use portfolio_engine.Forecasting.Store.Changes.{Keeps, Keeps-trans}
use portfolio_engine.Forecasting.Inference.{Bundle, run_inference}
use portfolio_engine.Forecasting.Inference.Keeps.{infer_symbol-Grows}
use portfolio_engine.Forecasting.Losses.{Sql}
use portfolio_engine.Forecasting.Garch.{Stats, Arch}
use portfolio_engine.Forecasting.Train.{Xgboost, Entry, train_models, bundle_of}
use portfolio_engine.Forecasting.Train.Usable.{IsUsable, AreUsable, train_models-AreUsable}
use portfolio_engine.Forecasting.Service.{Service, Step, Reach, infer_turn, inference_round}
use portfolio_engine.Forecasting.Service.Sound.{IsVol, HasVol, infer_symbol-HasVol}

module _ {F : Type 0} ⦃f : Float F⦄ (np : Numpy F) (stats : Stats F) (arch : Arch F)
    (xgb : Xgboost F) (symbols : List String) (forward_window : ℕ) (sql : Sql F)
    (rolling_loss_points : ℕ) where
  abbrev Threads : Type 0
  Threads = Service np stats arch xgb symbols forward_window sql rolling_loss_points

  abbrev Usable : Dict (Entry np stats arch xgb) → Type 0
  Usable = AreUsable np stats arch xgb

  -- The models can predict, the keys of the forecasts are unique, every forecast has a GARCH
  -- volatility that is not below 0, and those that were there before are kept.
  pub record IsSafe (before : List (ForecastRow F)) (s : Threads) : Type 0 where
    pub usable : Usable s.models
    pub usable_copy : Usable s.snapshot
    pub keyed : IsKeyed forecast_key s.tables.forecasts
    pub vols : All HasVol s.tables.forecasts
    pub kept : Keeps before s.tables.forecasts

  copied-IsVol :
      (snapshot : Dict (Entry np stats arch xgb)) (symbol : String) (b : Bundle F)
      → Usable snapshot
      → lookup symbol (map_values (bundle_of np stats arch xgb) snapshot) ≡ some b
      → IsVol b.garch_predict
  copied-IsVol snapshot symbol b h e =
      let bundle = bundle_of np stats arch xgb in
      let (t, found, same) =
        map-eq-some bundle (lookup symbol snapshot)
          (sym (lookup-map_values bundle symbol snapshot) ∙ e) in
      let (vol, _) = lookup-All (IsUsable np stats arch xgb) symbol t snapshot h found in
      subst (λ (x : Bundle F). IsVol x.garch_predict) same vol

  module _ (laws : IsIeee F) where
    pub Step-IsSafe :
        (before : List (ForecastRow F)) {s t : Threads}
        → IsSafe before s
        → Step np stats arch xgb symbols forward_window sql rolling_loss_points s t
        → IsSafe before t
    Step-IsSafe before {s} h (Step.trains source_of e) = subst (IsSafe before) (sym e) (record {
      usable =
          update-All (IsUsable np stats arch xgb) s.models
            (train_models np stats arch xgb source_of symbols).0 h.usable
            (train_models-AreUsable np stats arch xgb laws source_of symbols);
      usable_copy = h.usable_copy;
      keyed = h.keyed;
      vols = h.vols;
      kept = h.kept;
    })
    Step-IsSafe before {s} h (Step.copies e) = subst (IsSafe before) (sym e) (record {
      usable = h.usable;
      usable_copy = h.usable;
      keyed = h.keyed;
      vols = h.vols;
      kept = h.kept;
    })
    Step-IsSafe before {s} h (Step.infers symbol known e) =
        let b = lookup symbol (map_values (bundle_of np stats arch xgb) s.snapshot) in
        let (keyed, stays) =
          infer_symbol-Grows np forward_window sql rolling_loss_points b symbol s.tables h.keyed in
        subst (IsSafe before) (sym e) (record {
          usable = h.usable;
          usable_copy = h.usable_copy;
          keyed = keyed;
          vols =
              infer_symbol-HasVol np forward_window sql rolling_loss_points b symbol s.tables
                (λ x found. copied-IsVol s.snapshot symbol x h.usable_copy found) h.vols;
          kept = Keeps-trans before s.tables.forecasts _ h.kept stays;
        })
    Step-IsSafe before {s} h (Step.arrives now prices features e) =
        subst (IsSafe before) (sym e) (record {
          usable = h.usable;
          usable_copy = h.usable_copy;
          keyed = h.keyed;
          vols = h.vols;
          kept = h.kept;
        })

    -- Under the laws of IEEE 754, and however the threads interleave with one another and with what
    -- the other services write: if the models and their copy can predict, the keys of the forecasts
    -- are unique and every forecast has a GARCH volatility that is not below 0, then this stays so,
    -- and every forecast that was there keeps its predictions, and its realized volatility if it has
    -- one.
    pub Reach-IsSafe :
        (before : List (ForecastRow F)) {s t : Threads}
        → IsSafe before s
        → Reach np stats arch xgb symbols forward_window sql rolling_loss_points s t
        → IsSafe before t
    Reach-IsSafe before h Reach.here = h
    Reach-IsSafe before h (Reach.next r step) = Step-IsSafe before (Reach-IsSafe before h r) step

  turns-Reach :
      (rest : List String) (s u : Threads)
      → IsWithin rest symbols
      → Reach np stats arch xgb symbols forward_window sql rolling_loss_points s u
      → Reach np stats arch xgb symbols forward_window sql rolling_loss_points s (record u {
        tables =
            run_inference np forward_window sql rolling_loss_points
              (map_values (bundle_of np stats arch xgb) u.snapshot)
              rest
              u.tables;
      })
  unfolding run_inference
  turns-Reach [] s u h r = r
  turns-Reach (symbol ∷ rest) s u h r =
      turns-Reach rest s
        (record u {
          tables =
              infer_turn np stats arch xgb symbols forward_window sql rolling_loss_points u.snapshot
                symbol u.tables;
        })
        h.1 (Reach.next r (Step.infers symbol h.0 refl))

  -- A round of the inference loop is made of the steps of the service.
  inference_round-Reach :
      (s : Threads)
      → Reach np stats arch xgb symbols forward_window sql rolling_loss_points s (record s {
        tables =
            inference_round np stats arch xgb symbols forward_window sql rolling_loss_points
              s.snapshot s.tables;
      })
  unfolding inference_round
  inference_round-Reach s = by_copy s.snapshot refl
    where
      by_copy :
          (d : Dict (Entry np stats arch xgb))
          → s.snapshot ≡ d
          → Reach np stats arch xgb symbols forward_window sql rolling_loss_points s (record s {
            tables =
                inference_round np stats arch xgb symbols forward_window sql rolling_loss_points d
                  s.tables;
          })
      by_copy [] e = Reach.here
      by_copy (m ∷ d) e =
          subst
            (λ x.
              Reach np stats arch xgb symbols forward_window sql rolling_loss_points s (record s {
                tables =
                    run_inference np forward_window sql rolling_loss_points
                      (map_values (bundle_of np stats arch xgb) x) symbols s.tables;
              }))
            e (turns-Reach symbols s s (IsWithin-refl symbols) Reach.here)
