-- ===== src/Forecasting/Ready/Marks.antt =====
-- The wait for the backfill returns at the first poll with all marks.
use portfolio_engine.Prelude.{
  ℕ, String, ◌≡◌, refl, sym, ◌∙◌, ◌↔◌, ◌≢◌, inl, inr, true, Bool-cases, some, List, [], ◌∷◌, All,
  All-imp, arith, str_eq, eq_iff,
}
use portfolio_engine.Dict.{contains, IsWithin}
use mathlib.Core.Path.{subst}
use portfolio_engine.Database.{Has-upsert, Has-upsert_other}
use portfolio_engine.Portfolio.Ready.{BackfillRow, is_empty, missing_of, done_symbols}
use portfolio_engine.Portfolio.Ready.First.{IsFirst, wait-IsFirst}
use portfolio_engine.Portfolio.Ready.Backfill.{IsMarked, All-IsMarked_iff}
use portfolio_engine.Forecasting.Ready.{text_key, mark_backfill_done, wait_for_backfill}

-- The wait for the backfill returns after `k` sleeps exactly when in the poll after them every
-- symbol is marked as done, and in no poll before it all of them were.
pub wait_for_backfill-IsFirst :
    (symbols : List String) (polls : List (List BackfillRow)) (k : ℕ)
    → (wait_for_backfill symbols polls ≡ some k)
      ↔ IsFirst (λ rows. All (IsMarked rows) symbols) k polls
unfolding wait_for_backfill
wait_for_backfill-IsFirst symbols polls k =
    wait-IsFirst (λ rows. is_empty (missing_of (done_symbols rows) symbols))
      (λ rows. All (IsMarked rows) symbols) (All-IsMarked_iff symbols) polls k

-- One mark after the other.
abbrev pub mark_all : List String → List BackfillRow → List BackfillRow
mark_all [] rows = rows
mark_all (s ∷ marks) rows = mark_all marks (mark_backfill_done s rows)

mark-IsMarked : (s : String) (rows : List BackfillRow) → IsMarked (mark_backfill_done s rows) s
unfolding mark_backfill_done
mark-IsMarked s rows =
    let row : BackfillRow = record { symbol = s; status = "done" } in
    (row, Has-upsert (λ (r : BackfillRow). r.symbol) row rows, refl, refl)

mark_keeps :
    (x s : String) (rows : List BackfillRow)
    → IsMarked rows s
    → IsMarked (mark_backfill_done x rows) s
unfolding mark_backfill_done
mark_keeps x s rows (r, m, e, d) = elim (Bool-cases (str_eq x s)) [
  | inl same ↦
      subst (λ y. IsMarked (mark_backfill_done x rows) y) ((eq_iff x s).0 same)
        (mark-IsMarked x rows)
  | inr other ↦
      let row : BackfillRow = record { symbol = x; status = "done" } in
      let differs : r.symbol ≢ x = λ q. absurd (ground (arith, eq_iff x s, sym q ∙ e)) in
      (r, (Has-upsert_other (λ (y : BackfillRow). y.symbol) row rows r differs).1 m, e, d)
]

mark_all-keeps :
    (marks : List String) (s : String) (rows : List BackfillRow)
    → IsMarked rows s
    → IsMarked (mark_all marks rows) s
mark_all-keeps [] s rows h = h
mark_all-keeps (x ∷ marks) s rows h =
    mark_all-keeps marks s (mark_backfill_done x rows) (mark_keeps x s rows h)

mark_all-IsMarked :
    (marks : List String) (s : String) (rows : List BackfillRow)
    → contains s marks ≡ true
    → IsMarked (mark_all marks rows) s
unfolding contains
mark_all-IsMarked [] s rows h = absurd (ground arith)
mark_all-IsMarked (x ∷ marks) s rows h = elim (Bool-cases (str_eq x s)) [
  | inl same ↦ mark_all-keeps marks s (mark_backfill_done x rows) (
      subst (λ y. IsMarked (mark_backfill_done x rows) y) ((eq_iff x s).0 same)
        (mark-IsMarked x rows))
  | inr other ↦ mark_all-IsMarked marks s (mark_backfill_done x rows) (ground arith)
]

-- If every symbol has been marked, in whatever order and whatever the table had before and whatever
-- else is marked, the wait for the backfill does not sleep.
pub mark_then_wait :
    (symbols marks : List String) (rows : List BackfillRow) (polls : List (List BackfillRow))
    → IsWithin symbols marks
    → wait_for_backfill symbols (mark_all marks rows ∷ polls) ≡ some 0
mark_then_wait symbols marks rows polls h =
    (wait_for_backfill-IsFirst symbols (mark_all marks rows ∷ polls) 0).1
      (tt, mark_all marks rows, refl, All-imp symbols (λ s k. mark_all-IsMarked marks s rows k) h)
