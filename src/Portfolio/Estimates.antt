-- ===== src/Portfolio/Estimates.antt =====
-- `_to_return_matrix`, `estimate_mu` and `estimate_covariance` of portfolio_engine/allocator.py,
-- with the two history queries of portfolio_engine/db.py that feed them.
pub mod Shapes
use Prim.Native.Nat.{zero as nat_zero}
use portfolio_engine.Prelude.{
  ℕ, suc, ◌+◌ as nat_add, String, Bool, ◌&&◌, ◌||◌, Option, none, some, List, [], ◌∷◌, map, length,
  replicate, leb, ltb, ◌>>=◌, if◌then◌else◌,
}
use portfolio_engine.Float.{Float, ◌+◌, ◌*◌, lit, zero, one, max}
use portfolio_engine.Dict.{Dict, contains, lookup, get}
use portfolio_engine.Database.{PriceRow, where_true, order_by_time}
use portfolio_engine.Portfolio.Allocator.{zip_with}

-- What the module uses of pandas. `pivot` raises a ValueError at a repeated time of a symbol.
pub record Pandas (F : Type 0) : Type 1 where
  pub Frame : Type 0
  pub of_prices : List (PriceRow F) → Frame
  pub of_columns : List String → Frame
  pub is_empty : Frame → Bool
  pub row_count : Frame → ℕ
  pub pivot : Frame → Option Frame
  pub sort_index : Frame → Frame
  pub reindex : List String → Frame → Frame
  pub shift : Frame → Frame
  pub divide : Frame → Frame → Frame
  pub log : Frame → Frame
  pub replace_infinite : Frame → Frame
  pub dropna_rows : Frame → Frame
  pub dropna_columns : Frame → Frame
  pub fillna : F → Frame → Frame
  pub mean : Frame → Dict F
  pub cov : Frame → Dict (Dict F)

module _ {F : Type 0} where
  -- The rows of `fetch_return_history` (a lookback in days) and of `fetch_short_return_history` (in
  -- minutes), for a lookback in microseconds; `now` is the database's clock.
  unfoldable pub fetch_history : ℕ → List (PriceRow F) → List String → ℕ → List (PriceRow F)
  fetch_history now prices symbols lookback =
      order_by_time (λ r. r.time)
        (where_true (λ r. contains r.symbol symbols && leb now (nat_add r.time lookback)) prices)

module _ {F : Type 0} ⦃f : Float F⦄ where
  -- `np.eye(n) * x`
  unfoldable pub eye : ℕ → List (List F)
  eye nat_zero = []
  eye (suc n) = (one ∷ replicate n zero) ∷ map (λ row. zero ∷ row) (eye n)

  unfoldable pub diagonal : ℕ → F → List (List F)
  unfolding eye
  diagonal n x = map (map (λ e. e * x)) (eye n)

  unfoldable pub add_matrices : List (List F) → List (List F) → List (List F)
  unfolding zip_with
  add_matrices (r ∷ rows) (q ∷ others) = zip_with ◌+◌ r q ∷ add_matrices rows others
  add_matrices _ _ = []

  -- `cov_df.get(si, pd.Series()).get(sj, 0.0)`
  abbrev pub cov_entry : Dict (Dict F) → String → String → F
  cov_entry d si sj = get zero sj (get [] si d)

  abbrev pub cov_rows : Dict (Dict F) → List String → List String → List (List F)
  cov_rows d rows columns = map (λ si. map (cov_entry d si) columns) rows

  module _ (pd : Pandas F) where
    open pd use {
      Frame, of_prices, of_columns, is_empty, row_count, pivot, sort_index, reindex, shift, divide,
      log, replace_infinite, dropna_rows, dropna_columns, fillna, mean, cov,
    }

    abbrev pub clean : List String → Frame → Frame
    clean symbols pivoted =
        let p = reindex symbols (sort_index pivoted) in
        dropna_columns (dropna_rows (replace_infinite (log (divide p (shift p)))))

    unfoldable pub to_return_matrix : List (PriceRow F) → List String → Option Frame
    to_return_matrix prices symbols =
        let df = of_prices prices in
        if is_empty df then some (of_columns symbols) else pivot df >>= λ p. some (clean symbols p)

    unfoldable pub estimate_mu : List (PriceRow F) → List String → Option (List F)
    unfolding to_return_matrix
    estimate_mu short_prices symbols = do
      returns ← to_return_matrix short_prices symbols
      some (
          if is_empty returns
          then replicate (length symbols) zero
          else map (λ s. get zero s (mean returns)) symbols)

    unfoldable pub estimate_covariance :
        List (PriceRow F) → List String → F → Option (List (List F))
    unfolding to_return_matrix diagonal add_matrices
    estimate_covariance prices symbols shrinkage_lambda = do
      returns ← to_return_matrix prices symbols
      some (
          if is_empty returns || ltb (row_count returns) 2
          then diagonal (length symbols) (max shrinkage_lambda (lit 1 6))
          else add_matrices (cov_rows (cov (fillna zero returns)) symbols symbols)
              (diagonal (length symbols) (max shrinkage_lambda (lit 1 12))))
