-- ===== src/Forecasting/Ready.antt =====
-- The waits of forecasting/db.py by which `main` holds the first training back, and the marks that
-- one of them waits for. A poll is the table that it finds.
pub mod Marks
use portfolio_engine.Prelude.{
  ℕ, String, Bool, true, false, Option, some, List, [], ◌∷◌, ◌↔◌, ◌≡◌, ◌≤◌, str_eq, eq_iff,
}
use portfolio_engine.Database.{FeatureRow, Key, upsert}
use portfolio_engine.Portfolio.Ready.{
  BackfillRow, is_empty, is_ready, missing_of, done_symbols, wait,
}
use portfolio_engine.Portfolio.Ready.Counted.{HasEnough, is_ready_iff}
use portfolio_engine.Portfolio.Ready.First.{IsFirst, wait-IsFirst}

instance abbrev pub text_key : Key String
text_key = record { beq = str_eq; beq_iff = eq_iff }

-- The row of a symbol is replaced, or added.
unfoldable pub mark_backfill_done : String → List BackfillRow → List BackfillRow
mark_backfill_done symbol = upsert (λ r. r.symbol) (record { symbol = symbol; status = "done" })

unfoldable pub wait_for_backfill : List String → List (List BackfillRow) → Option ℕ
wait_for_backfill symbols = wait (λ rows. is_empty (missing_of (done_symbols rows) symbols))

module _ {F : Type 0} where
  unfoldable pub wait_for_features : List String → ℕ → List (List (FeatureRow F)) → Option ℕ
  wait_for_features symbols min_rows = wait (is_ready (λ r. r.symbol) (λ r. true) min_rows symbols)

  -- For a minimum of at least 1, the wait for features returns after `k` sleeps exactly when the
  -- poll after them finds that many feature rows of every symbol, and no poll before it did.
  pub wait_for_features-IsFirst :
      (symbols : List String) (min_rows : ℕ) (polls : List (List (FeatureRow F))) (k : ℕ)
      → 1 ≤ min_rows
      → (wait_for_features symbols min_rows polls ≡ some k)
        ↔ IsFirst (HasEnough (λ r. r.symbol) (λ r. true) min_rows symbols) k polls
  unfolding wait_for_features
  wait_for_features-IsFirst symbols min_rows polls k pos =
      wait-IsFirst _ _
        (λ rows.
          is_ready_iff (λ (r : FeatureRow F). r.symbol) (λ r. true) min_rows symbols rows pos)
        polls k
