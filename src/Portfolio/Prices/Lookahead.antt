-- ===== src/Portfolio/Prices/Lookahead.antt =====
-- What `fetch_latest_prices` finds, and that prices of the future play no part in the returns.
use mathlib.Core.List.{append-nil}
use portfolio_engine.Prelude.{
  ℕ, ◌≤◌, ◌<◌, String, ◌≡◌, ap, ◌∙◌, true, some, List, ◌++◌, All, All-imp, sym, map-eq-some,
  &&-true, leb→le, le→leb, Has, arith,
}
use portfolio_engine.Float.{Float}
use portfolio_engine.Dict.{contains, lookup, lookup-map_values}
use portfolio_engine.Database.{PriceRow, distinct_on-IsLatest, where_true-append, where_true-none}
use portfolio_engine.Portfolio.Prices.{
  Quote, quote, is_wanted, fetch_latest_prices, compute_period_asset_returns,
}

module _ {F : Type 0} where
  abbrev pub IsLatestOf : String → ℕ → List (PriceRow F) → PriceRow F → Type 0
  IsLatestOf s as_of prices r =
      (r.symbol ≡ s)
      × (r.time ≤ as_of)
      × Has r prices
      × ((q : PriceRow F) → Has q prices → q.symbol ≡ s → q.time ≤ as_of → q.time ≤ r.time)

  -- The quote found under a symbol is that of a price row of the symbol, which is asked for, not
  -- after the given time, and no such row is later.
  pub fetch_latest_prices-IsLatest :
      (prices : List (PriceRow F)) (symbols : List String) (as_of : ℕ) (s : String) (q : Quote F)
      → lookup s (fetch_latest_prices prices symbols as_of) ≡ some q
      → (r : PriceRow F) × IsLatestOf s as_of prices r × (quote r ≡ q) × (contains s symbols ≡ true)
  unfolding fetch_latest_prices
  fetch_latest_prices-IsLatest prices symbols as_of s q e =
      let wanted = is_wanted symbols as_of in
      let (r, found, same) = map-eq-some quote _ (sym (lookup-map_values quote s _) ∙ e) in
      let (t, w, m, top) =
        distinct_on-IsLatest (λ x. x.time) (λ x. x.symbol) wanted prices s r found in
      let (listed, early) = &&-true _ _ w in
      let member = ap (λ x. contains x symbols) (sym t) ∙ listed in
      (
        r,
        (t, leb→le _ _ early, m, λ x h u l. top x h u (rw (u, member) (le→leb _ _ l))),
        same,
        member,
      )

  fetch_latest_prices-append :
      (prices future : List (PriceRow F)) (symbols : List String) (as_of : ℕ)
      → All (λ r. as_of < r.time) future
      → fetch_latest_prices (prices ++ future) symbols as_of
        ≡ fetch_latest_prices prices symbols as_of
  unfolding fetch_latest_prices
  fetch_latest_prices-append prices future symbols as_of h = rw (
    where_true-append (is_wanted symbols as_of) prices future,
    where_true-none (is_wanted symbols as_of) future (All-imp future (λ r l. ground arith) h),
    append-nil,
  )

module _ {F : Type 0} ⦃f : Float F⦄ where
  -- Price rows after the end of the period do not change its returns, if it does not end before
  -- it starts.
  pub no_lookahead :
      (prices future : List (PriceRow F)) (symbols : List String) (from_time to_time : ℕ)
      → from_time ≤ to_time
      → All (λ r. to_time < r.time) future
      → compute_period_asset_returns (prices ++ future) symbols from_time to_time
        ≡ compute_period_asset_returns prices symbols from_time to_time
  unfolding compute_period_asset_returns
  no_lookahead prices future symbols from_time to_time h k = rw (
    fetch_latest_prices-append prices future symbols from_time
        (All-imp future (λ r l. omega arith) k),
    fetch_latest_prices-append prices future symbols to_time k,
  )
