-- ===== src/Forecasting/Service.antt =====
-- The threads of forecasting/main.py over the dictionary of models that they share, with what the
-- other services write. Each step below holds the lock, or is one symbol's turn in `run_inference`;
-- the steps come in any order.
pub mod Sound
pub mod Threads
pub mod Symbols
pub mod Origin
use portfolio_engine.Prelude.{ℕ, String, ◌≡◌, true, Option, none, some, List, [], ◌∷◌}
use portfolio_engine.Float.{Float}
use portfolio_engine.Dict.{Dict, contains, lookup, map_values}
use portfolio_engine.Database.{PriceRow, FeatureRow}
use portfolio_engine.Portfolio.Numpy.{Numpy}
use portfolio_engine.Forecasting.Inference.{Tables, infer_symbol, run_inference}
use portfolio_engine.Forecasting.Losses.{Sql}
use portfolio_engine.Forecasting.Garch.{Stats, Arch}
use portfolio_engine.Forecasting.Train.{Xgboost, Source, Trained, Entry, train_models, bundle_of}
use portfolio_engine.Forecasting.Training.{models_after}

-- The shared dictionary, the inference thread's copy of it, and the tables.
pub record State (F M : Type 0) : Type 0 where
  pub models : Dict M
  pub snapshot : Dict M
  pub tables : Tables F

module _ {F : Type 0} ⦃f : Float F⦄ (np : Numpy F) (stats : Stats F) (arch : Arch F)
    (xgb : Xgboost F) (symbols : List String) (forward_window : ℕ) (sql : Sql F)
    (rolling_loss_points : ℕ) where
  abbrev pub Service : Type 0
  Service = State F (Entry np stats arch xgb)

  -- The turn of a symbol in `run_inference` on the copy.
  abbrev pub infer_turn : Dict (Entry np stats arch xgb) → String → Tables F → Tables F
  infer_turn snapshot symbol t =
      infer_symbol np forward_window sql rolling_loss_points
        (lookup symbol (map_values (bundle_of np stats arch xgb) snapshot)) symbol t

  -- The body of `inference_loop` on a copy: without models it only waits.
  unfoldable pub inference_round : Dict (Entry np stats arch xgb) → Tables F → Tables F
  inference_round [] t = t
  inference_round (m ∷ snapshot) t =
      run_inference np forward_window sql rolling_loss_points
        (map_values (bundle_of np stats arch xgb) (m ∷ snapshot)) symbols t

  pub data Step (s : Service) : Service → Type 0 where
    -- A training ends, in `main` or in `training_loop`; what it read may be older than the tables.
    trains :
        (source_of : String → Source F) {t : Service}
        → t ≡ record s {
          models =
              models_after (some (train_models np stats arch xgb source_of symbols).0) s.models;
        }
        → Step s t
    -- `snapshot = dict(models)`
    copies : {t : Service} → t ≡ record s { snapshot = s.models } → Step s t
    infers :
        (symbol : String) {t : Service}
        → contains symbol symbols ≡ true
        → t ≡ record s { tables = infer_turn s.snapshot symbol s.tables }
        → Step s t
    -- Prices and features come, and time passes.
    arrives :
        (now : ℕ) (prices : List (PriceRow F)) (features : List (FeatureRow F)) {t : Service}
        → t ≡ record s {
          tables = record s.tables { now = now; prices = prices; features = features };
        }
        → Step s t

  pub data Reach (s : Service) : Service → Type 0 where
    here : Reach s s
    next : {t u : Service} → Reach s t → Step t u → Reach s u
