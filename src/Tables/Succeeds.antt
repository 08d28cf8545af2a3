-- ===== src/Tables/Succeeds.antt =====
-- The statements succeed where the tables that are there allow it.
use portfolio_engine.Prelude.{
  String, ◌≡◌, refl, sym, ap, ◌∙◌, inl, inr, Bool, true, Bool-cases, some, List, [], ◌∷◌, All,
  arith, str_eq, eq_iff, ◌&&◌,
}
use mathlib.Core.Path.{subst}
use portfolio_engine.Dict.{insert, contains, lookup, keys}
use portfolio_engine.Database.Schema.{
  Table, Catalog, Statement, create_table, add_column, ensure_hypertable, create_index, names,
  has_all, with_table, make_table, make_column, make_hypertable, make_index, can_partition, execute,
  execute_all,
}
use portfolio_engine.Database.Schema.Extends.{IsMade}
use portfolio_engine.Database.Schema.Steps.{execute-Extends}
use portfolio_engine.Database.Schema.Again.{make_hypertable-same}
use portfolio_engine.Tables.Written.{IsEarlier, HasColumns, ensure_tables-HasColumns}
use portfolio_engine.Tables.{
  Program, portfolio_engine_program, forecasting_program, feature_engineering_program,
  statements_of, ensure_tables, written,
}
use portfolio_engine.Tables.Fit.{AreFit, is_fit, makes_fit, execute-AreFit}

contains-has_all :
    (c : String) (xs ys : List String)
    → has_all xs ys ≡ true
    → contains c xs ≡ true
    → contains c ys ≡ true
unfolding contains
contains-has_all c [] ys h k = absurd (ground arith)
contains-has_all c (x ∷ xs) ys h k = elim (Bool-cases (str_eq x c)) [
  | inl same ↦ ap (λ j. contains j ys) (sym ((eq_iff x c).0 same)) ∙ ground arith
  | inr other ↦ contains-has_all c xs ys (ground arith) (ground arith)
]

has_all_trans :
    (xs ys zs : List String) → has_all xs ys ≡ true → has_all ys zs ≡ true → has_all xs zs ≡ true
has_all_trans [] ys zs h k = refl
has_all_trans (x ∷ xs) ys zs h k =
    ground
      (arith, contains-has_all x ys zs k (ground arith), has_all_trans xs ys zs (ground arith) k)

-- The tables of these names are there.
abbrev Known : List String → Catalog → Type 0
Known ks s = (n : String) → contains n ks ≡ true → (t : Table) × (lookup n s.tables ≡ some t)

-- The names that are known after a statement.
abbrev known_after : List String → Statement → List String
known_after ks (create_table m cs key) = m ∷ ks
known_after ks (add_column m c) = ks
known_after ks (ensure_hypertable m column) = ks
known_after ks (create_index m i) = ks

execute-Known :
    (x : Statement) (ks : List String) (s v : Catalog)
    → execute x s ≡ some v
    → Known ks s
    → Known (known_after ks x) v
unfolding contains
execute-Known x ks s v e h = go x (execute-Extends x s v e).1
  where
    still : Known ks v
    still n k =
        let (t, found) = h n k in
        let (w, found', _) = (execute-Extends x s v e).0.0 n t found in (w, found')

    go : (y : Statement) → IsMade y v → Known (known_after ks y) v
    go (create_table m cs key) made = λ n k. elim (Bool-cases (str_eq m n)) [
      | inl same ↦
          subst (λ j. (t : Table) × (lookup j v.tables ≡ some t)) ((eq_iff m n).0 same) made
      | inr other ↦ still n (ground arith)
    ]
    go (add_column m c) made = still
    go (ensure_hypertable m column) made = still
    go (create_index m i) made = still

module _ (ns cols : List String) where
  -- The tables that the statement is about are there, and it asks for no other columns.
  abbrev can_run : List String → Statement → Bool
  can_run ks (create_table m cs key) = true
  can_run ks (add_column m c) = contains m ks
  can_run ks (ensure_hypertable m column) = contains m ks && contains m ns && str_eq column "time"
  can_run ks (create_index m i) =
      contains i.table ks && contains i.table ns && has_all i.columns cols

  execute-runs :
      (x : Statement) (ks : List String) (s : Catalog)
      → can_run ks x ≡ true
      → AreFit ns cols s
      → Known ks s
      → (v : Catalog) × (execute x s ≡ some v)
  unfolding execute make_hypertable make_index
  execute-runs (create_table m cs key) ks s k fit h = (make_table m cs key s, refl)
  execute-runs (add_column m c) ks s k fit h =
      let (t, found) = h m k in (with_table m (make_column c t) s, rw (found, execute) refl)
  execute-runs (ensure_hypertable m column) ks s k fit h =
      let (t, found) = h m (ground arith) in
      let good : is_fit ns cols t ≡ true = fit m t (ground arith) found in
      elim (Bool-cases t.is_hypertable) [
        | inl is ↦ (with_table m t s, rw (found, make_hypertable-same column t is, execute) refl)
        | inr plain ↦
            let is_time : column ≡ "time" = (eq_iff column "time").0 (ground arith) in
            let can : can_partition column t ≡ true =
              ap (λ j. can_partition j t) is_time ∙ ground arith in
            let u : Table = record t { is_hypertable = true } in
            let made : make_hypertable column t ≡ some u = rw (plain, can, make_hypertable) refl in
            (with_table m u s, rw (found, made, execute) refl)
      ]
  execute-runs (create_index m i) ks s k fit h = elim (Bool-cases (contains m (keys s.indexes))) [
    | inl there ↦ (s, rw (there, make_index) refl)
    | inr new ↦
        let (t, found) = h i.table (ground arith) in
        let good : is_fit ns cols t ≡ true = fit i.table t (ground arith) found in
        let has : has_all i.columns (names t.columns) ≡ true =
          has_all_trans i.columns cols (names t.columns) (ground arith) (ground arith) in
        (record s { indexes = insert m i s.indexes }, rw (new, found, has, make_index) refl)
  ]

  abbrev all_run : List String → List Statement → Bool
  all_run ks [] = true
  all_run ks (x ∷ xs) = can_run ks x && makes_fit ns cols x && all_run (known_after ks x) xs

  all_run-works :
      (xs : List Statement) (ks : List String) (s : Catalog)
      → all_run ks xs ≡ true
      → AreFit ns cols s
      → Known ks s
      → (execute_all xs s).0 ≡ true
  unfolding execute_all
  all_run-works [] ks s k fit h = refl
  all_run-works (x ∷ xs) ks s k fit h =
      let (v, works) = execute-runs x ks s (ground arith) fit h in
      rw (works, execute_all)
        (all_run-works xs (known_after ks x) v (ground arith)
          (execute-AreFit ns cols x s v (ground arith) works fit) (execute-Known x ks s v works h))

-- The tables that a program turns into hypertables, and the columns of their indexes.
abbrev hypertables : Program → List String
hypertables portfolio_engine_program = "portfolio_state" ∷ []
hypertables forecasting_program = "forecasts" ∷ "model_metrics" ∷ []
hypertables feature_engineering_program = "prices" ∷ "features" ∷ []

abbrev index_columns : Program → List String
index_columns portfolio_engine_program = "time" ∷ []
index_columns forecasting_program = "symbol" ∷ "time" ∷ []
index_columns feature_engineering_program = "symbol" ∷ "time" ∷ []

-- Those of a program's tables that are there have the columns of their indexes, and are hypertables,
-- or are empty and without a primary key that leaves the time out.
abbrev pub CanStart : Program → Catalog → Type 0
CanStart p s = AreFit (hypertables p) (index_columns p) s

statements_of-run :
    (p : Program) → all_run (hypertables p) (index_columns p) [] (statements_of p) ≡ true
unfolding statements_of contains
statements_of-run portfolio_engine_program = refl
statements_of-run forecasting_program = refl
statements_of-run feature_engineering_program = refl

-- If those of a program's tables that are there have the columns of their indexes, and are
-- hypertables or can be made ones (they are empty, and their primary key, if any, has the time), and
-- have the columns of the program's earlier version (which for `portfolio_state` is without those of the
-- profit and loss), then all its statements succeed, and its tables are there with every column
-- that it writes.
pub ensure_tables-Succeeds :
    (p : Program) (s : Catalog)
    → CanStart p s
    → IsEarlier p s
    → ((ensure_tables p s).0 ≡ true) × All (HasColumns (ensure_tables p s).1) (written p)
unfolding ensure_tables contains
ensure_tables-Succeeds p s fit h =
    let works =
      all_run-works (hypertables p) (index_columns p) (statements_of p) [] s (statements_of-run p)
        fit (λ n k. absurd (ground arith)) in
    (works, ensure_tables-HasColumns p s h works)
