-- ===== src/Portfolio/Forecasts/Latest.antt =====
-- What `fetch_latest_forecasts` finds.
use portfolio_engine.Prelude.{
  ℕ, ◌≤◌, ◌≡◌, String, true, some, List, Has, ◌∙◌, sym, ap, &&-true, leb→le, le→leb, map-eq-some,
  ◌&&◌, ◌||◌, leb,
}
use portfolio_engine.Dict.{contains, lookup, lookup-map_values}
use portfolio_engine.Database.{ForecastRow, distinct_on-IsLatest}
use portfolio_engine.Portfolio.Allocator.{Forecast}
use portfolio_engine.Portfolio.Forecasts.{is_given, is_usable, forecast, fetch_latest_forecasts}

module _ {F : Type 0} where
  abbrev pub HasVol : ForecastRow F → Type 0
  HasVol r = (is_given r.garch_vol || is_given r.xgb_vol) ≡ true

  -- The forecast under a symbol is a row of that symbol, not after the given time, with at least
  -- one of the two volatilities, and no such row is later.
  fetch_latest_forecasts-IsLatest :
      (forecasts : List (ForecastRow F)) (symbols : List String) (as_of : ℕ) (s : String)
      (q : Forecast F)
      → lookup s (fetch_latest_forecasts forecasts symbols as_of) ≡ some q
      → (r : ForecastRow F) × (forecast r ≡ q)
        × (r.symbol ≡ s)
        × (r.time ≤ as_of)
        × HasVol r
        × Has r forecasts
        × ((x : ForecastRow F)
            → Has x forecasts
            → x.symbol ≡ s
            → x.time ≤ as_of
            → HasVol x
            → x.time ≤ r.time)
  unfolding fetch_latest_forecasts
  fetch_latest_forecasts-IsLatest forecasts symbols as_of s q e =
      let (r, found, same) = map-eq-some forecast _ (sym (lookup-map_values forecast s _) ∙ e) in
      let (t, w, m, top) =
        distinct_on-IsLatest (λ x. x.time) (λ x. x.symbol) (is_usable symbols as_of) forecasts s r
          found in
      let (early, given) = &&-true (contains r.symbol symbols && leb r.time as_of) _ w in
      let (listed, before) = &&-true _ _ early in
      let member = ap (λ x. contains x symbols) (sym t) ∙ listed in
      (
        r,
        same,
        t,
        leb→le _ _ before,
        given,
        m,
        λ x h u l v. top x h u (rw (u, member, le→leb _ _ l) v),
      )
