-- ===== src/Forecasting/Losses/Recent.antt =====
-- Which forecasts the rolling losses are about.
use Prim.Native.Nat.{zero as nat_zero}
use mathlib.Core.List.{append-nil}
use portfolio_engine.Prelude.{
  ℕ, suc, ◌≤◌, ◌<◌, ◌≡◌, refl, sym, ap, ◌∙◌, ◌⊎◌, inl, inr, String, Bool, true, false, ◌&&◌, ◌||◌,
  Bool-cases, Option, List, [], ◌∷◌, ◌++◌, map, take, any, length, length-take, ltb, leb, All,
  arith,
}
use portfolio_engine.Float.{Float}
use portfolio_engine.Database.{
  ForecastRow, MetricsRow, where_true, where_true-append, place_latest, latest_first,
}
use portfolio_engine.Portfolio.Forecasts.{is_given}
use portfolio_engine.Forecasting.Losses.{
  Sql, is_realized, recent, pairs, average, squared_error, likelihood, metrics_of,
  write_rolling_model_metrics,
}

take-append {ℓ} :
    {A : Type ℓ} (n : ℕ) (xs ys : List A) → n ≤ length xs → take n (xs ++ ys) ≡ take n xs
take-append nat_zero xs ys h = refl
take-append (suc n) [] ys h = absurd (omega arith)
take-append (suc n) (x ∷ xs) ys h = ap (λ r. x ∷ r) (take-append n xs ys (omega arith))

module _ {R : Type 0} (time : R → ℕ) where
  place_latest-append :
      (r : R) (a b : List R)
      → All (λ q. time r < time q) a
      → place_latest time r (a ++ b) ≡ a ++ place_latest time r b
  unfolding place_latest
  place_latest-append r [] b h = refl
  place_latest-append r (x ∷ a) b h = ground (arith, place_latest-append r a b h.1)

  place_latest-All :
      (P : R → Type 0) (r : R) (rows : List R) → P r → All P rows → All P (place_latest time r rows)
  unfolding place_latest
  place_latest-All P r [] p h = (p, tt)
  place_latest-All P r (q ∷ rows) p h = elim (Bool-cases (leb (time q) (time r))) [
    | inl e ↦ rw e (p, h)
    | inr e ↦ rw e (h.0, place_latest-All P r rows p h.1)
  ]

  latest_first-All : (P : R → Type 0) (rows : List R) → All P rows → All P (latest_first time rows)
  unfolding latest_first
  latest_first-All P [] h = tt
  latest_first-All P (r ∷ rows) h = place_latest-All P r _ h.0 (latest_first-All P rows h.1)

  length-place_latest :
      (r : R) (rows : List R) → length (place_latest time r rows) ≡ suc (length rows)
  unfolding place_latest
  length-place_latest r [] = refl
  length-place_latest r (q ∷ rows) = ground (arith, length-place_latest r rows)

  length-latest_first : (rows : List R) → length (latest_first time rows) ≡ length rows
  unfolding latest_first
  length-latest_first [] = refl
  length-latest_first (r ∷ rows) =
      length-place_latest r (latest_first time rows) ∙ ap suc (length-latest_first rows)

  -- Every row of the first list is older than every row of the second.
  abbrev pub AreOlder : List R → List R → Type 0
  AreOlder old rows = All (λ r. All (λ q. time r < time q) rows) old

  latest_first-append :
      (old rows : List R)
      → AreOlder old rows
      → latest_first time (old ++ rows) ≡ latest_first time rows ++ latest_first time old
  unfolding latest_first
  latest_first-append [] rows h = sym (append-nil _)
  latest_first-append (r ∷ old) rows h =
      ap (place_latest time r) (latest_first-append old rows h.1)
      ∙ place_latest-append r (latest_first time rows) (latest_first time old)
          (latest_first-All (λ q. time r < time q) rows h.0)

module _ {F : Type 0} where
  length-pairs :
      (vol : ForecastRow F → Option F) (rows : List (ForecastRow F))
      → length (pairs vol rows) ≤ length rows
  unfolding pairs
  length-pairs vol [] = omega arith
  length-pairs vol (r ∷ rows) = ground (arith, length-pairs vol rows)

  -- A forecast with its realized volatility, and with the prediction.
  abbrev pub is_scored : (ForecastRow F → Option F) → ForecastRow F → Bool
  is_scored vol r = is_given r.realized_vol && is_given (vol r)

  pairs-scored :
      (vol : ForecastRow F → Option F) (rows : List (ForecastRow F))
      → ltb 0 (length (pairs vol rows)) ≡ any (is_scored vol) rows
  unfolding pairs
  pairs-scored vol [] = refl
  pairs-scored vol (r ∷ rows) = ground (arith, pairs-scored vol rows)

  average-given :
      (sql : Sql F) (g : F × F → F) (xs : List (F × F))
      → is_given (average sql (map g xs)) ≡ ltb 0 (length xs)
  average-given sql g [] = refl
  average-given sql g (x ∷ xs) = ground arith

  length-recent :
      (symbol : String) (n : ℕ) (forecasts : List (ForecastRow F))
      → length (recent symbol n forecasts) ≤ n
  unfolding recent
  length-recent symbol n forecasts = omega (
    arith,
    length-take n
        (latest_first (λ (r : ForecastRow F). r.time) (where_true (is_realized symbol) forecasts)),
  )

  -- What is known of a row that is written.
  pub record IsSummary (window_points : ℕ) (row : MetricsRow F) : Type 0 where
    pub garch_bound : row.garch_samples ≤ window_points
    pub xgb_bound : row.xgb_samples ≤ window_points
    pub garch_mse_given : is_given row.garch_mse ≡ ltb 0 row.garch_samples
    pub garch_qlike_given : is_given row.garch_qlike ≡ ltb 0 row.garch_samples
    pub xgb_mse_given : is_given row.xgb_mse ≡ ltb 0 row.xgb_samples
    pub xgb_qlike_given : is_given row.xgb_qlike ≡ ltb 0 row.xgb_samples

  -- One of the forecasts has its realized volatility and a prediction.
  abbrev pub has_scored : List (ForecastRow F) → Bool
  has_scored rows = any (is_scored (λ r. r.garch_vol)) rows || any (is_scored (λ r. r.xgb_vol)) rows

module _ {F : Type 0} ⦃f : Float F⦄ (sql : Sql F) where
  -- Once as many realized forecasts of the symbol are there as the window has points, realized
  -- forecasts that are older than all of these do not change what is written.
  pub losses_are_recent :
      (now : ℕ) (symbol : String) (window_points : ℕ) (eps : F)
      (old forecasts : List (ForecastRow F)) (metrics : List (MetricsRow F))
      → window_points ≤ length (where_true (is_realized symbol) forecasts)
      → AreOlder
          (λ r. r.time)
          (where_true (is_realized symbol) old)
          (where_true (is_realized symbol) forecasts)
      → write_rolling_model_metrics sql now symbol window_points eps (old ++ forecasts) metrics
        ≡ write_rolling_model_metrics sql now symbol window_points eps forecasts metrics
  unfolding write_rolling_model_metrics
  losses_are_recent now symbol n eps old forecasts metrics enough older =
      let time : ForecastRow F → ℕ = λ r. r.time in
      let p = is_realized symbol in
      let same : recent symbol n (old ++ forecasts) ≡ recent symbol n forecasts =
        ap (λ rows. take n (latest_first time rows)) (where_true-append p old forecasts)
        ∙ ap (take n) (latest_first-append time (where_true p old) (where_true p forecasts) older)
        ∙ take-append n (latest_first time (where_true p forecasts)) _
            (omega (arith, length-latest_first time (where_true p forecasts))) in
      rw same refl

  metrics_of-IsSummary :
      (now : ℕ) (symbol : String) (n : ℕ) (eps : F) (forecasts : List (ForecastRow F))
      → IsSummary n (metrics_of sql now symbol n eps (recent symbol n forecasts))
  unfolding metrics_of
  metrics_of-IsSummary now symbol n eps forecasts =
      let rows = recent symbol n forecasts in
      let few = length-recent symbol n forecasts in
      let garch = pairs (λ (r : ForecastRow F). r.garch_vol) rows in
      let xgb = pairs (λ (r : ForecastRow F). r.xgb_vol) rows in
      record {
        garch_bound = omega (arith, few, length-pairs (λ (r : ForecastRow F). r.garch_vol) rows);
        xgb_bound = omega (arith, few, length-pairs (λ (r : ForecastRow F). r.xgb_vol) rows);
        garch_mse_given = average-given sql (squared_error sql) garch;
        garch_qlike_given = average-given sql (likelihood sql eps) garch;
        xgb_mse_given = average-given sql (squared_error sql) xgb;
        xgb_qlike_given = average-given sql (likelihood sql eps) xgb;
      }

  -- A row of losses is written exactly when one of the recent forecasts has its realized volatility
  -- and one of the predictions; nothing else changes. The row counts at most as many forecasts as
  -- the window has points, and has a loss of a model exactly when it counts a forecast of the model.
  pub losses_written :
      (now : ℕ) (symbol : String) (window_points : ℕ) (eps : F) (forecasts : List (ForecastRow F))
      (metrics : List (MetricsRow F))
      → let after =
          write_rolling_model_metrics sql now symbol window_points eps forecasts metrics in
        let scored = has_scored (recent symbol window_points forecasts) in
        ((scored ≡ true)
          × (row : MetricsRow F) × (after ≡ metrics ++ row ∷ [])
          × IsSummary window_points row)
        ⊎ ((scored ≡ false) × (after ≡ metrics))
  unfolding write_rolling_model_metrics
  losses_written now symbol n eps forecasts metrics =
      let rows = recent symbol n forecasts in
      let row = metrics_of sql now symbol n eps rows in
      let garch = pairs-scored (λ (r : ForecastRow F). r.garch_vol) rows in
      let xgb = pairs-scored (λ (r : ForecastRow F). r.xgb_vol) rows in
      let counted = ltb 0 row.garch_samples || ltb 0 row.xgb_samples in
      let same : counted ≡ has_scored rows = rw (garch, xgb) refl in
      elim (Bool-cases counted) [
        | inl e ↦
            inl (sym same ∙ e, row, rw e refl, metrics_of-IsSummary now symbol n eps forecasts)
        | inr e ↦ inr (sym same ∙ e, rw e refl)
      ]
