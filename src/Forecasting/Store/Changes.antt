-- ===== src/Forecasting/Store/Changes.antt =====
-- Insertions and updates of forecasts, and the rows that are there already.
use mathlib.Core.Path.{subst}
use portfolio_engine.Prelude.{
  ℕ, String, ◌≡◌, refl, sym, ap, ◌∙◌, ◌≢◌, inl, inr, true, false, not, ◌&&◌, Bool-cases, &&-true,
  some, List, [], ◌∷◌, map, All, Has, str_eq, eq_iff, ◌==◌, arith, if◌then◌else◌, if-case,
}
use portfolio_engine.Database.{
  Has-order_by_time, ForecastRow, where_true, Has-where_true, order_by_time, IsKeyed, pair_key,
  insert_new-IsKeyed, Has-insert_new, Has-unique, insert_new,
}
use portfolio_engine.Portfolio.Forecasts.{is_given}
use portfolio_engine.Forecasting.Store.{
  forecast_key, is_at, is_missing_realized, insert_forecasts, fetch_forecasts_missing_realized,
  update_one, update_realized_vol,
}

All-map_of_Has :
    {A B : Type 0} (P : B → Type 0) (g : A → B) (xs : List A)
    → ((x : A) → Has x xs → P (g x))
    → All P (map g xs)
All-map_of_Has P g [] h = tt
All-map_of_Has P g (x ∷ xs) h = (h x (inl refl), All-map_of_Has P g xs (λ y m. h y (inr m)))

module _ {F : Type 0} where
  -- The same forecast, but perhaps for the realized volatility.
  abbrev pub IsSame : ForecastRow F → ForecastRow F → Type 0
  IsSame a b =
      (a.time ≡ b.time)
      × (a.symbol ≡ b.symbol)
      × (a.garch_vol ≡ b.garch_vol)
      × (a.xgb_vol ≡ b.xgb_vol)

  -- Every forecast of the first table is in the second, with the same predictions; and as it is,
  -- if it has its realized volatility.
  abbrev pub Keeps : List (ForecastRow F) → List (ForecastRow F) → Type 0
  Keeps before after =
      (r : ForecastRow F)
      → Has r before
      → ((q : ForecastRow F) × IsSame r q × Has q after)
        × (is_given r.realized_vol ≡ true → Has r after)

  IsSame-trans : (a b c : ForecastRow F) → IsSame a b → IsSame b c → IsSame a c
  IsSame-trans a b c (p, q, r, s) (t, u, v, w) = (p ∙ t, q ∙ u, r ∙ v, s ∙ w)

  pub Keeps-trans : (a b c : List (ForecastRow F)) → Keeps a b → Keeps b c → Keeps a c
  Keeps-trans a b c h k r m =
      let ((q, same, n), given) = h r m in
      let ((p, also, o), _) = k q n in
      ((p, IsSame-trans r q p same also, o), λ e. (k r (given e)).1 e)

  pub insert_forecasts-IsKeyed :
      (rows forecasts : List (ForecastRow F))
      → IsKeyed forecast_key forecasts
      → IsKeyed forecast_key (insert_forecasts rows forecasts)
  unfolding insert_forecasts
  insert_forecasts-IsKeyed [] forecasts h = h
  insert_forecasts-IsKeyed (r ∷ rows) forecasts h =
      insert_forecasts-IsKeyed rows (insert_new forecast_key r forecasts)
        (insert_new-IsKeyed forecast_key r forecasts h)

  pub Has-insert_forecasts :
      (rows forecasts : List (ForecastRow F)) (q : ForecastRow F)
      → Has q forecasts
      → Has q (insert_forecasts rows forecasts)
  unfolding insert_forecasts
  Has-insert_forecasts [] forecasts q m = m
  Has-insert_forecasts (r ∷ rows) forecasts q m =
      Has-insert_forecasts rows (insert_new forecast_key r forecasts) q
        (Has-insert_new forecast_key r forecasts q m)

  abbrev updated : F → ℕ → String → ForecastRow F → ForecastRow F
  updated value ts symbol r =
      if is_at symbol ts r then record r { realized_vol = some value } else r

  updated-IsSame : (v : F) (ts : ℕ) (s : String) (r : ForecastRow F) → IsSame r (updated v ts s r)
  updated-IsSame v ts s r =
      if-case {A = ForecastRow F} (IsSame r) (is_at s ts r) (λ _. (refl, refl, refl, refl))
        (λ _. (refl, refl, refl, refl))

  updated-key :
      (v : F) (ts : ℕ) (s : String) (r : ForecastRow F)
      → forecast_key (updated v ts s r) ≡ forecast_key r
  updated-key v ts s r =
      if-case {A = ForecastRow F} (λ q. forecast_key q ≡ forecast_key r) (is_at s ts r) (λ _. refl)
        (λ _. refl)

  update_one-others :
      (v : F) (ts : ℕ) (s : String) (k : String × ℕ) (rows : List (ForecastRow F))
      → All (λ q. forecast_key q ≢ k) rows
      → All (λ q. forecast_key q ≢ k) (update_one v ts s rows)
  unfolding update_one
  update_one-others v ts s k [] h = tt
  update_one-others v ts s k (r ∷ rows) h =
      (λ e. h.0 (sym (updated-key v ts s r) ∙ e), update_one-others v ts s k rows h.1)

  update_one-IsKeyed :
      (v : F) (ts : ℕ) (s : String) (rows : List (ForecastRow F))
      → IsKeyed forecast_key rows
      → IsKeyed forecast_key (update_one v ts s rows)
  unfolding update_one
  update_one-IsKeyed v ts s [] h = tt
  update_one-IsKeyed v ts s (r ∷ rows) h = (
    subst (λ k. All (λ q. forecast_key q ≢ k) (update_one v ts s rows)) (sym (updated-key v ts s r))
        (update_one-others v ts s (forecast_key r) rows h.0),
    update_one-IsKeyed v ts s rows h.1,
  )

  Has-update_one :
      (v : F) (ts : ℕ) (s : String) (r : ForecastRow F) (rows : List (ForecastRow F))
      → Has r rows
      → Has (updated v ts s r) (update_one v ts s rows)
  unfolding update_one
  Has-update_one v ts s r [] m = elim m [ ]
  Has-update_one v ts s r (x ∷ rows) (inl e) = inl (ap (updated v ts s) e)
  Has-update_one v ts s r (x ∷ rows) (inr m) = inr (Has-update_one v ts s r rows m)

  pub update_realized_vol-IsKeyed :
      (us : List (F × ℕ × String)) (rows : List (ForecastRow F))
      → IsKeyed forecast_key rows
      → IsKeyed forecast_key (update_realized_vol us rows)
  unfolding update_realized_vol
  update_realized_vol-IsKeyed [] rows h = h
  update_realized_vol-IsKeyed ((v, ts, s) ∷ us) rows h =
      update_realized_vol-IsKeyed us (update_one v ts s rows) (update_one-IsKeyed v ts s rows h)

  pub Has-update_realized_vol :
      (us : List (F × ℕ × String)) (rows : List (ForecastRow F)) (r : ForecastRow F)
      → Has r rows
      → (q : ForecastRow F) × IsSame r q × Has q (update_realized_vol us rows)
  unfolding update_realized_vol
  Has-update_realized_vol [] rows r m = (r, (refl, refl, refl, refl), m)
  Has-update_realized_vol ((v, ts, s) ∷ us) rows r m =
      let next = updated v ts s r in
      let (q, same, n) =
        Has-update_realized_vol us (update_one v ts s rows) next (Has-update_one v ts s r rows m) in
      (q, IsSame-trans r next q (updated-IsSame v ts s r) same, n)

  -- No update is for the key of the row.
  abbrev pub Misses : ForecastRow F → List (F × ℕ × String) → Type 0
  Misses r us = All (λ u. is_at u.2 u.1 r ≡ false) us

  pub Has-update_missing :
      (us : List (F × ℕ × String)) (rows : List (ForecastRow F)) (r : ForecastRow F)
      → Misses r us
      → Has r rows
      → Has r (update_realized_vol us rows)
  unfolding update_realized_vol
  Has-update_missing [] rows r h m = m
  Has-update_missing ((v, ts, s) ∷ us) rows r h m =
      let stays : updated v ts s r ≡ r = rw h.0 refl in
      Has-update_missing us (update_one v ts s rows) r h.1
        (subst (λ x. Has x (update_one v ts s rows)) stays (Has-update_one v ts s r rows m))

  pub missing-others :
      (now : ℕ) (forecasts : List (ForecastRow F)) (s : String) (window : ℕ) (r : ForecastRow F)
      → IsKeyed forecast_key forecasts
      → Has r forecasts
      → is_given r.realized_vol ≡ true
      → All (λ ts. is_at s ts r ≡ false) (fetch_forecasts_missing_realized now forecasts s window)
  unfolding fetch_forecasts_missing_realized
  missing-others now forecasts s window r keyed m given =
      All-map_of_Has (λ ts. is_at s ts r ≡ false) (λ (x : ForecastRow F). x.time)
        (order_by_time (λ (x : ForecastRow F). x.time)
          (where_true (is_missing_realized now s window) forecasts))
        λ x found.
          let (n, missing) = Has-where_true (is_missing_realized now s window) forecasts x (
            Has-order_by_time (λ (y : ForecastRow F). y.time) x
              (where_true (is_missing_realized now s window) forecasts) found) in
          let (both, _) = &&-true (str_eq x.symbol s && not (is_given x.realized_vol)) _ missing in
          let (here, absent) = &&-true (str_eq x.symbol s) (not (is_given x.realized_vol)) both in
          elim (Bool-cases (is_at s x.time r)) [
            | inr e ↦ e
            | inl e ↦
                let (same_symbol, same_time) = &&-true (str_eq r.symbol s) (r.time == x.time) e in
                let keys : forecast_key r ≡ forecast_key x =
                  ground (arith, eq_iff r.symbol s, eq_iff x.symbol s) in
                let same = Has-unique forecast_key forecasts r x keyed m n keys in
                let also : is_given x.realized_vol ≡ true =
                  subst (λ (y : ForecastRow F). is_given y.realized_vol ≡ true) same given in
                absurd (ground (arith, absent, also))
          ]
