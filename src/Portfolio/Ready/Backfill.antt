-- ===== src/Portfolio/Ready/Backfill.antt =====
-- The wait for the backfill returns at the first poll with all marks.
use portfolio_engine.Prelude.{
  ℕ, String, ◌≡◌, refl, ap, ◌∙◌, ◌↔◌, inl, inr, true, Bool-cases, some, List, [], ◌∷◌, All, All-imp,
  Has, arith, str_eq, eq_iff,
}
use portfolio_engine.Dict.{contains}
use portfolio_engine.Portfolio.Ready.{
  wait_for_backfill, BackfillRow, is_empty, missing_of, done_symbols,
}
use portfolio_engine.Portfolio.Ready.Counted.{missing_of-empty}
use portfolio_engine.Portfolio.Ready.First.{IsFirst, wait-IsFirst}

-- The table has a row of the symbol with the status `done`.
abbrev pub IsMarked : List BackfillRow → String → Type 0
IsMarked rows s = (r : BackfillRow) × Has r rows × (r.symbol ≡ s) × (r.status ≡ "done")

IsMarked-cons :
    (q : BackfillRow) (rows : List BackfillRow) (s : String)
    → IsMarked rows s
    → IsMarked (q ∷ rows) s
IsMarked-cons q rows s (r, m, e, d) = (r, inr m, e, d)

IsMarked-of :
    (rows : List BackfillRow) (s : String) → contains s (done_symbols rows) ≡ true → IsMarked rows s
unfolding contains done_symbols
IsMarked-of [] s h = absurd (ground arith)
IsMarked-of (r ∷ rows) s h = elim (Bool-cases (str_eq r.status "done")) [
  | inl d ↦ elim (Bool-cases (str_eq r.symbol s)) [
    | inl e ↦ (r, inl refl, (eq_iff r.symbol s).0 e, (eq_iff r.status "done").0 d)
    | inr e ↦ IsMarked-cons r rows s (IsMarked-of rows s (ground arith))
  ]
  | inr d ↦ IsMarked-cons r rows s (IsMarked-of rows s (ground arith))
]

of_marked :
    (rows : List BackfillRow) (s : String) (r : BackfillRow)
    → Has r rows
    → str_eq r.symbol s ≡ true
    → str_eq r.status "done" ≡ true
    → contains s (done_symbols rows) ≡ true
unfolding contains done_symbols
of_marked [] s r m e d = elim m [ ]
of_marked (q ∷ rows) s r (inl same) e d =
    let e' : str_eq q.symbol s ≡ true = ap (λ (x : BackfillRow). str_eq x.symbol s) same ∙ e in
    let d' : str_eq q.status "done" ≡ true =
      ap (λ (x : BackfillRow). str_eq x.status "done") same ∙ d in
    ground arith
of_marked (q ∷ rows) s r (inr m) e d = ground (arith, of_marked rows s r m e d)

pub All-IsMarked_iff :
    (symbols : List String) (rows : List BackfillRow)
    → (is_empty (missing_of (done_symbols rows) symbols) ≡ true) ↔ All (IsMarked rows) symbols
All-IsMarked_iff symbols rows =
    let (to, back) = missing_of-empty (done_symbols rows) symbols in
    (
      λ e. All-imp symbols (λ s h. IsMarked-of rows s h) (to e),
      λ k. back (
          All-imp symbols
            (λ s (r, m, e, d).
              of_marked rows s r m ((eq_iff r.symbol s).1 e) ((eq_iff r.status "done").1 d))
            k),
    )

-- The wait for the backfill returns after `k` sleeps exactly when in the poll after them every
-- symbol is marked as done, and in no poll before it all of them were.
pub wait_for_backfill-IsFirst :
    (symbols : List String) (polls : List (List BackfillRow)) (k : ℕ)
    → (wait_for_backfill symbols polls ≡ some k)
      ↔ IsFirst (λ rows. All (IsMarked rows) symbols) k polls
unfolding wait_for_backfill
wait_for_backfill-IsFirst symbols polls k =
    wait-IsFirst (λ rows. is_empty (missing_of (done_symbols rows) symbols))
      (λ rows. All (IsMarked rows) symbols) (All-IsMarked_iff symbols) polls k
