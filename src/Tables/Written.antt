-- ===== src/Tables/Written.antt =====
-- The tables have the columns that the programs write.
use portfolio_engine.Prelude.{
  String, ◌≡◌, refl, All-imp, inl, inr, Bool, true, false, Bool-cases, some, List, [], ◌∷◌, All,
  arith, str_eq, eq_iff, ◌||◌, ◌&&◌,
}
use mathlib.Core.Path.{subst}
use portfolio_engine.Dict.{Dict, contains, lookup, get, IsWithin, All-contains}
use portfolio_engine.Database.Schema.{
  Table, Catalog, Statement, create_table, add_column, ensure_hypertable, create_index, names,
}
use portfolio_engine.Database.Schema.Extends.{IsMade}
use portfolio_engine.Database.Schema.Again.{execute_all-All}
use portfolio_engine.Tables.{
  Program, portfolio_engine_program, forecasting_program, feature_engineering_program,
  statements_of, ensure_tables, written, earlier,
}
use portfolio_engine.Tables.Columns.{Holds, all_keep, any_makes, execute_all-Holds, any_makes-Holds}

abbrev creates : String → List Statement → Bool
creates n [] = false
creates n (create_table m cs key ∷ xs) = str_eq m n || creates n xs
creates n (add_column m c ∷ xs) = creates n xs
creates n (ensure_hypertable m column ∷ xs) = creates n xs
creates n (create_index m i ∷ xs) = creates n xs

creates-lookup :
    (n : String) (xs : List Statement) (s : Catalog)
    → creates n xs ≡ true
    → All (λ x. IsMade x s) xs
    → (t : Table) × (lookup n s.tables ≡ some t)
creates-lookup n [] s k h = absurd (ground arith)
creates-lookup n (create_table m cs key ∷ xs) s k h = elim (Bool-cases (str_eq m n)) [
  | inl same ↦ subst (λ j. (t : Table) × (lookup j s.tables ≡ some t)) ((eq_iff m n).0 same) h.0
  | inr other ↦ creates-lookup n xs s (ground arith) h.1
]
creates-lookup n (add_column m c ∷ xs) s k h = creates-lookup n xs s k h.1
creates-lookup n (ensure_hypertable m column ∷ xs) s k h = creates-lookup n xs s k h.1
creates-lookup n (create_index m i ∷ xs) s k h = creates-lookup n xs s k h.1

-- Whether the statements see to it that the table has the columns, if it has the old ones when it is
-- there already.
abbrev covers : List Statement → String → (old cols : List String) → Bool
covers xs n old [] = true
covers xs n old (c ∷ cols) =
    (contains c old && all_keep n c xs || any_makes n c xs) && covers xs n old cols

module _ (p : Program) (s : Catalog) where
  -- A table that is there already has the columns that an earlier version of the program made.
  abbrev pub IsEarlier : Type 0
  IsEarlier =
      (n : String) (t : Table)
      → lookup n s.tables ≡ some t
      → IsWithin (get [] n (earlier p)) (names t.columns)

  covers-Holds :
      (n : String) (cols : List String)
      → IsEarlier
      → (ensure_tables p s).0 ≡ true
      → covers (statements_of p) n (get [] n (earlier p)) cols ≡ true
      → All (λ c. Holds n c (ensure_tables p s).1) cols
  unfolding ensure_tables
  covers-Holds n [] h e k = tt
  covers-Holds n (c ∷ cols) h e k =
      let rest = covers-Holds n cols h e (ground arith) in
      elim (Bool-cases (any_makes n c (statements_of p))) [
        | inl made ↦ (
          any_makes-Holds n c (statements_of p) _ made (execute_all-All (statements_of p) s e),
          rest,
        )
        | inr not_made ↦
            let old : contains c (get [] n (earlier p)) ≡ true = ground arith in
            (
              execute_all-Holds n c (statements_of p) s (ground arith)
                  (λ t e'. All-contains _ c (get [] n (earlier p)) (h n t e') old),
              rest,
            )
      ]

-- The catalogue has the table with the columns.
abbrev pub HasColumns : Catalog → String × List String → Type 0
HasColumns s (n, cols) =
    (t : Table) × (lookup n s.tables ≡ some t) × IsWithin cols (names t.columns)

abbrev all_covered : Program → Dict (List String) → Bool
all_covered p [] = true
all_covered p ((n, cols) ∷ d) =
    (creates n (statements_of p) && covers (statements_of p) n (get [] n (earlier p)) cols)
    && all_covered p d

all_covered-HasColumns :
    (p : Program) (s : Catalog) (d : Dict (List String))
    → IsEarlier p s
    → (ensure_tables p s).0 ≡ true
    → all_covered p d ≡ true
    → All (HasColumns (ensure_tables p s).1) d
unfolding ensure_tables
all_covered-HasColumns p s [] h e k = tt
all_covered-HasColumns p s ((n, cols) ∷ d) h e k =
    let (t, found) =
      creates-lookup n (statements_of p) _ (ground arith) (execute_all-All (statements_of p) s e) in
    let holds = covers-Holds p s n cols h e (ground arith) in
    (
      (t, found, All-imp cols (λ c f. f t found) holds),
      all_covered-HasColumns p s d h e (ground arith),
    )

written-covered : (p : Program) → all_covered p (written p) ≡ true
unfolding statements_of get lookup contains
written-covered portfolio_engine_program = refl
written-covered forecasting_program = refl
written-covered feature_engineering_program = refl

-- If the tables of a program that are there have the columns of its earlier versions (which for
-- `portfolio_state` is without those of the profit and loss), and all its statements succeed, then
-- its tables are there with every column that it writes.
pub ensure_tables-HasColumns :
    (p : Program) (s : Catalog)
    → IsEarlier p s
    → (ensure_tables p s).0 ≡ true
    → All (HasColumns (ensure_tables p s).1) (written p)
ensure_tables-HasColumns p s h e = all_covered-HasColumns p s (written p) h e (written-covered p)
