-- ===== src/Tables/Tests.antt =====
-- The theorems on the tables, applied to an empty database and to one of an earlier version.
use mathlib.Core.Option.{some-injective}
use mathlib.Core.Path.{subst}
use portfolio_engine.Prelude.{
  ◌≡◌, refl, inl, inr, true, false, Bool-cases, [], ◌∷◌, map, All, arith, str_eq, eq_iff,
}
use portfolio_engine.Dict.{contains, lookup, get, insert, keys, IsWithin, IsWithin-refl}
use portfolio_engine.Database.Schema.{Table, Catalog, names, execute_all}
use portfolio_engine.Database.Schema.Again.{execute_all-Extends}
use portfolio_engine.Tables.{
  Program, portfolio_engine_program, forecasting_program, feature_engineering_program,
  statements_of, ensure_tables, written, earlier, first_state_columns,
}
use portfolio_engine.Tables.Written.{IsEarlier, HasColumns}
use portfolio_engine.Tables.Fit.{is_fit}
use portfolio_engine.Tables.Succeeds.{CanStart, ensure_tables-Succeeds}
use portfolio_engine.Tables.Again.{ensure_tables-again}

abbrev empty : Catalog
empty = record { tables = []; indexes = [] }

-- A database of the version without the columns of the profit and loss, with rows in it.
abbrev state_then : Table
state_then = record {
  columns =
      map (λ n. record { name = n; sql_type = "DOUBLE PRECISION"; is_required = false })
        first_state_columns;
  primary_key = "time" ∷ [];
  is_hypertable = true;
  has_rows = true;
}

abbrev catalog_then : Catalog
catalog_then = record { tables = ("portfolio_state", state_then) ∷ []; indexes = [] }

catalog_then-IsEarlier : IsEarlier portfolio_engine_program catalog_then
unfolding get lookup contains
catalog_then-IsEarlier n t e = elim (Bool-cases (str_eq "portfolio_state" n)) [
  | inl same ↦
      let there : state_then ≡ t = some-injective _ _ (rw same at e) in
      let table = (eq_iff "portfolio_state" n).0 same in
      subst (λ j. IsWithin (get [] j (earlier portfolio_engine_program)) (names t.columns)) table
        (subst (λ u. IsWithin first_state_columns (names u.columns)) there
          (IsWithin-refl first_state_columns))
  | inr other ↦ absurd (ground (arith, rw other at e))
]

-- The statements of each program succeed on an empty database.
works_anew : (p : Program) → (ensure_tables p empty).0 ≡ true
unfolding ensure_tables execute_all statements_of lookup insert contains keys
works_anew portfolio_engine_program = refl
works_anew forecasting_program = refl
works_anew feature_engineering_program = refl

catalog_then-CanStart : CanStart portfolio_engine_program catalog_then
unfolding contains lookup
catalog_then-CanStart n t k e = elim (Bool-cases (str_eq "portfolio_state" n)) [
  | inl same ↦
      let there : state_then ≡ t = some-injective _ _ (rw same at e) in
      subst (λ u. is_fit ("portfolio_state" ∷ []) ("time" ∷ []) u ≡ true) there refl
  | inr other ↦ absurd (ground (arith, rw other at e))
]

ensure_tables-Succeeds_example :
    ((ensure_tables portfolio_engine_program catalog_then).0 ≡ true)
    × All
        (HasColumns (ensure_tables portfolio_engine_program catalog_then).1)
        (written portfolio_engine_program)
ensure_tables-Succeeds_example =
    ensure_tables-Succeeds portfolio_engine_program catalog_then catalog_then-CanStart
      catalog_then-IsEarlier

abbrev with_features : Catalog
with_features =
    (ensure_tables feature_engineering_program (ensure_tables portfolio_engine_program empty).1).1

ensure_tables-again_example :
    ensure_tables portfolio_engine_program with_features ≡ (true, with_features)
unfolding ensure_tables
ensure_tables-again_example =
    ensure_tables-again portfolio_engine_program empty with_features
      (works_anew portfolio_engine_program)
      (execute_all-Extends (statements_of feature_engineering_program) _)
