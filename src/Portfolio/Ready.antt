-- ===== src/Portfolio/Ready.antt =====
-- `wait_for_backfill`, `wait_for_prices` and `wait_for_forecasts` of portfolio_engine/db.py, by
-- which `main` holds the first rebalance back. A poll is the table that it finds.
pub mod Counted
pub mod First
pub mod Backfill
use portfolio_engine.Prelude.{
  ℕ, suc, String, Bool, true, false, ◌&&◌, ◌||◌, Option, none, some, List, [], ◌∷◌, map, leb,
  str_eq, if◌then◌else◌,
}
use mathlib.Core.Option
use portfolio_engine.Dict.{Dict, contains, from_keys}
use portfolio_engine.Database.{PriceRow, ForecastRow, where_true}
use portfolio_engine.Portfolio.Forecasts.{is_given}

-- A row of `backfill_status`.
pub record BackfillRow : Type 0 where
  pub symbol : String
  pub status : String

-- `sorted(expected - ready)`, but for the order, which only the log shows.
unfoldable pub missing_of : List String → List String → List String
missing_of ready [] = []
missing_of ready (s ∷ expected) =
    let rest = missing_of ready expected in if contains s ready then rest else s ∷ rest

-- `{s for s, c in counts.items() if c >= min_rows}`
unfoldable pub ready_of : ℕ → Dict ℕ → List String
ready_of min_rows [] = []
ready_of min_rows ((s, c) ∷ counts) =
    let rest = ready_of min_rows counts in if leb min_rows c then s ∷ rest else rest

abbrev pub is_empty : List String → Bool
is_empty [] = true
is_empty (_ ∷ _) = false

module _ {R : Type 0} (symbol_of : R → String) where
  unfoldable pub number_of : String → List R → ℕ
  number_of s [] = 0
  number_of s (r ∷ rows) = let n = number_of s rows in if str_eq (symbol_of r) s then suc n else n

  -- `SELECT symbol, COUNT(*) … WHERE symbol = ANY(symbols) AND is_counted GROUP BY symbol`
  unfoldable pub counts_of : (R → Bool) → List String → List R → Dict ℕ
  unfolding number_of
  counts_of is_counted symbols rows =
      let found = where_true (λ r. contains (symbol_of r) symbols && is_counted r) rows in
      from_keys (λ s. number_of s found) (map symbol_of found) []

  -- Whether a poll has at least `min_rows` rows of every symbol.
  unfoldable pub is_ready : (R → Bool) → ℕ → List String → List R → Bool
  unfolding missing_of ready_of counts_of
  is_ready is_counted min_rows symbols rows =
      is_empty (missing_of (ready_of min_rows (counts_of is_counted symbols rows)) symbols)

-- `while True` over the polls that come: the sleeps before the loop returns, or `none` when it
-- has not returned.
unfoldable pub wait {ℓ} : {T : Type ℓ} → (T → Bool) → List T → Option ℕ
wait is_done [] = none
wait is_done (poll ∷ polls) =
    let rest = wait is_done polls in if is_done poll then some 0 else Option.map suc rest

module _ {F : Type 0} where
  unfoldable pub wait_for_prices : List String → ℕ → List (List (PriceRow F)) → Option ℕ
  unfolding is_ready wait
  wait_for_prices symbols min_rows = wait (is_ready (λ r. r.symbol) (λ r. true) min_rows symbols)

  -- A symbol is ready when its count is over 0.
  unfoldable pub wait_for_forecasts : List String → List (List (ForecastRow F)) → Option ℕ
  unfolding is_ready wait
  wait_for_forecasts symbols =
      wait (is_ready (λ r. r.symbol) (λ r. is_given r.garch_vol || is_given r.xgb_vol) 1 symbols)

unfoldable pub done_symbols : List BackfillRow → List String
done_symbols [] = []
done_symbols (r ∷ rows) =
    let rest = done_symbols rows in if str_eq r.status "done" then r.symbol ∷ rest else rest

unfoldable pub wait_for_backfill : List String → List (List BackfillRow) → Option ℕ
unfolding missing_of wait done_symbols
wait_for_backfill symbols = wait (λ rows. is_empty (missing_of (done_symbols rows) symbols))
