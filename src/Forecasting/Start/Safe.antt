-- ===== src/Forecasting/Start/Safe.antt =====
-- When the threads of the forecasting service run, and that they do no harm from then on.
use mathlib.Core.Option.{some-injective}
use mathlib.Core.Path.{subst}
use portfolio_engine.Prelude.{
  ℕ, ◌≡◌, refl, ap, ◌∙◌, ◌↔◌, String, Bool, true, false, Option, none, some, List, [], All, arith,
  ◌>>=◌, if◌then◌else◌,
}
use portfolio_engine.Float.{Float, IsIeee}
use portfolio_engine.Dict.{update-All}
use portfolio_engine.Database.{IsKeyed, pair_key}
use portfolio_engine.Tables.{forecasting_program}
use portfolio_engine.Tables.Begin.{begins, CanBegin, begins_iff}
use portfolio_engine.Portfolio.Numpy.{Numpy}
use portfolio_engine.Portfolio.Ready.Counted.{HasEnough}
use portfolio_engine.Portfolio.Ready.First.{IsFirst}
use portfolio_engine.Portfolio.Ready.Backfill.{IsMarked}
use portfolio_engine.Forecasting.Ready.{
  wait_for_backfill, wait_for_features, wait_for_features-IsFirst,
}
use portfolio_engine.Forecasting.Ready.Marks.{wait_for_backfill-IsFirst}
use portfolio_engine.Forecasting.Store.{forecast_key}
use portfolio_engine.Forecasting.Losses.{Sql}
use portfolio_engine.Forecasting.Garch.{Stats, Arch}
use portfolio_engine.Forecasting.Train.{Xgboost, train_models}
use portfolio_engine.Forecasting.Train.Usable.{IsUsable, train_models-AreUsable}
use portfolio_engine.Forecasting.Service.{Service, Reach}
use portfolio_engine.Forecasting.Service.Sound.{HasVol}
use portfolio_engine.Forecasting.Service.Threads.{IsSafe, Reach-IsSafe}
use portfolio_engine.Forecasting.Start.{
  Boot, Sleeps, Process, ended, waiting, threads, started, min_rows, waits, first_state, main,
}

-- The `do` of the waits.
abbrev sleeps_of : Option ℕ → Option ℕ → Option Sleeps
sleeps_of u v = do x ← u; y ← v; some record { for_backfill = x; for_features = y }

sleeps_of_iff :
    (u v : Option ℕ) (x : Sleeps)
    → (sleeps_of u v ≡ some x) ↔ ((u ≡ some x.for_backfill) × (v ≡ some x.for_features))
sleeps_of_iff none v x = (λ e. absurd (ground arith), λ e. absurd (ground arith))
sleeps_of_iff (some i) none x = (λ e. absurd (ground arith), λ e. absurd (ground arith))
sleeps_of_iff (some i) (some j) x = (
  λ e.
      let same = some-injective _ _ e in
      (
        ap (λ (y : Sleeps). some y.for_backfill) same,
        ap (λ (y : Sleeps). some y.for_features) same,
      ),
  λ (a, b). ground arith,
)

-- Each wait has slept until the first poll that has what it waits for.
abbrev pub IsWaited : {F C : Type 0} → List String → Boot F C → Sleeps → Type 0
IsWaited symbols b x =
    IsFirst (λ rows. All (IsMarked rows) symbols) x.for_backfill b.backfills
    × IsFirst (HasEnough (λ r. r.symbol) (λ r. true) min_rows symbols) x.for_features b.features

waits_iff :
    {F C : Type 0} (symbols : List String) (b : Boot F C) (x : Sleeps)
    → (waits symbols b ≡ some x) ↔ IsWaited symbols b x
unfolding waits
waits_iff symbols b x =
    let (to, back) =
      sleeps_of_iff (wait_for_backfill symbols b.backfills)
        (wait_for_features symbols min_rows b.features) x in
    let marks = wait_for_backfill-IsFirst symbols b.backfills x.for_backfill in
    let features =
      wait_for_features-IsFirst symbols min_rows b.features x.for_features (omega arith) in
    (λ e. let (u, v) = to e in (marks.0 u, features.0 v), λ (u, v). back (marks.1 u, features.1 v))

module _ {S : Type 0} where
  abbrev sleeps_in : Sleeps → Process S → Sleeps
  sleeps_in x ended = x
  sleeps_in x waiting = x
  sleeps_in x (threads y _) = y

  abbrev state_in : S → Process S → S
  state_in s ended = s
  state_in s waiting = s
  state_in s (threads _ t) = t

  runs_iff :
      (a : Bool) (o : Option Sleeps) (g : S) (x : Sleeps) (s : S)
      → ((if a then started g o else ended) ≡ threads x s) ↔ ((a ≡ true) × (o ≡ some x) × (g ≡ s))
  runs_iff false o g x s = (λ e. absurd (cc e), λ e. absurd (ground arith))
  runs_iff true none g x s = (λ e. absurd (cc e), λ e. absurd (ground arith))
  runs_iff true (some y) g x s = (
    λ e. (refl, ap (λ p. some (sleeps_in y p)) e, ap (state_in g) e),
    λ (_, u, v). ap (λ z. threads z g) (some-injective _ _ u) ∙ ap (threads x) v,
  )

module _ {F C : Type 0} ⦃f : Float F⦄ (np : Numpy F) (stats : Stats F) (arch : Arch F)
    (xgb : Xgboost F) (symbols : List String) (forward_window : ℕ) (sql : Sql F)
    (rolling_loss_points : ℕ) where
  -- The threads run, after the sleeps `x` and from the state `s`, exactly when one of the ten attempts
  -- to connect works, the statements that make the tables succeed, each of the two waits has slept
  -- until the first poll that has what it waits for (the marks, and 100 feature rows of every
  -- symbol), and `s` has the models of the first training.
  pub main_threads_iff :
      (b : Boot F C) (x : Sleeps)
      (s : Service np stats arch xgb symbols forward_window sql rolling_loss_points)
      → (main np stats arch xgb symbols forward_window sql rolling_loss_points b ≡ threads x s) ↔ (
          CanBegin b.attempt forecasting_program b.catalog
          × IsWaited symbols b x
          × (first_state np stats arch xgb symbols forward_window sql rolling_loss_points b ≡ s))
  unfolding main
  main_threads_iff b x s =
      let (to, back) =
        runs_iff (begins b.attempt forecasting_program b.catalog) (waits symbols b)
          (first_state np stats arch xgb symbols forward_window sql rolling_loss_points b) x s in
      let begun = begins_iff b.attempt forecasting_program b.catalog in
      let waited = waits_iff symbols b x in
      (
        λ e. let (u, v, w) = to e in (begun.0 u, waited.0 v, w),
        λ (u, v, w). back (begun.1 u, waited.1 v, w),
      )

  -- Under the laws of IEEE 754, from tables in which the keys of the forecasts are unique and every
  -- forecast has a GARCH volatility that is not below 0: once the threads run, and however they
  -- interleave with one another and with what the other services write, the models and their
  -- copy can predict, the keys stay unique, every forecast has a GARCH volatility that is not below
  -- 0, and those that were there keep their predictions, and their realized volatility if they have
  -- one.
  pub main_stays_IsSafe :
      (laws : IsIeee F) (b : Boot F C) (x : Sleeps)
      (s t : Service np stats arch xgb symbols forward_window sql rolling_loss_points)
      → IsKeyed forecast_key b.tables.forecasts
      → All HasVol b.tables.forecasts
      → main np stats arch xgb symbols forward_window sql rolling_loss_points b ≡ threads x s
      → Reach np stats arch xgb symbols forward_window sql rolling_loss_points s t
      → IsSafe np stats arch xgb symbols forward_window sql rolling_loss_points b.tables.forecasts t
  unfolding first_state
  main_stays_IsSafe laws b x s t keyed vols e r =
      let (_, _, same) = (main_threads_iff b x s).0 e in
      Reach-IsSafe np stats arch xgb symbols forward_window sql rolling_loss_points laws
        b.tables.forecasts
        (subst
          (IsSafe np stats arch xgb symbols forward_window sql rolling_loss_points
            b.tables.forecasts)
          same
          (record {
            usable =
                update-All (IsUsable np stats arch xgb) []
                  (train_models np stats arch xgb b.source_of symbols).0 tt
                  (train_models-AreUsable np stats arch xgb laws b.source_of symbols);
            usable_copy = tt;
            keyed = keyed;
            vols = vols;
            kept = λ q m. ((q, (refl, refl, refl, refl), m), λ _. m);
          }))
        r
