-- ===== src/Database/Schema.antt =====
-- The statements by which the services make their tables: `ensure_tables` of portfolio_engine/db.py,
-- forecasting/db.py and feature_engineering/db.py, and `ensure_backfill_status_table`. Each is
-- committed as it is run; the first that fails raises, and the others are not run.
pub mod Extends
pub mod Steps
pub mod Again
use portfolio_engine.Prelude.{
  String, Bool, true, false, not, ◌&&◌, ◌||◌, Option, none, some, List, [], ◌∷◌, ◌++◌, map,
  if◌then◌else◌,
}
use portfolio_engine.Dict.{Dict, contains, lookup, insert, keys}

-- The type has the default with it, if there is one.
pub record Column : Type 0 where
  pub name : String
  pub sql_type : String
  pub is_required : Bool

-- A table of the catalogue, with the columns of its primary key.
pub record Table : Type 0 where
  pub columns : List Column
  pub primary_key : List String
  pub is_hypertable : Bool
  pub has_rows : Bool

pub record Index : Type 0 where
  pub table : String
  pub columns : List String
  pub is_unique : Bool

pub record Catalog : Type 0 where
  pub tables : Dict Table
  pub indexes : Dict Index

pub data Statement : Type 0 where
  -- `CREATE TABLE IF NOT EXISTS`
  create_table : String → List Column → List String → Statement
  -- `ALTER TABLE … ADD COLUMN IF NOT EXISTS`
  add_column : String → Column → Statement
  -- `SELECT EXISTS (…)`, and `create_hypertable` on the column if there is no such hypertable
  ensure_hypertable : String → String → Statement
  -- `CREATE INDEX IF NOT EXISTS`
  create_index : String → Index → Statement

abbrev pub names : List Column → List String
names cs = map (λ (c : Column). c.name) cs

abbrev is_empty : List String → Bool
is_empty [] = true
is_empty (_ ∷ _) = false

abbrev pub has_all : List String → List String → Bool
has_all [] ys = true
has_all (x ∷ xs) ys = contains x ys && has_all xs ys

abbrev pub with_table : String → Table → Catalog → Catalog
with_table n t s = record s { tables = insert n t s.tables }

abbrev pub new_table : List Column → List String → Table
new_table cs key = record {
  columns = cs;
  primary_key = key;
  is_hypertable = false;
  has_rows = false;
}

unfoldable pub make_table : String → List Column → List String → Catalog → Catalog
make_table n cs key s = elim (lookup n s.tables) [
  | some _ ↦ s
  | none ↦ with_table n (new_table cs key) s
]

unfoldable pub make_column : Column → Table → Table
make_column c t =
    if contains c.name (names t.columns) then t else record t { columns = t.columns ++ (c ∷ []) }

-- The column must be there and in the primary key, if the table has one, and a plain table with
-- rows is not turned into a hypertable.
abbrev pub can_partition : String → Table → Bool
can_partition column t =
    contains column (names t.columns)
    && (contains column t.primary_key || is_empty t.primary_key)
    && not t.has_rows

unfoldable pub make_hypertable : String → Table → Option Table
make_hypertable column t =
    if t.is_hypertable
    then some t
    else if can_partition column t
    then some record t { is_hypertable = true }
    else none

unfoldable pub make_index : String → Index → Catalog → Option Catalog
make_index n i s = if contains n (keys s.indexes) then some s else elim (lookup i.table s.tables) [
  | none ↦ none
  | some t ↦
      if has_all i.columns (names t.columns)
      then some record s { indexes = insert n i s.indexes }
      else none
]

-- `none` is an error: of a table or a column that is not there, or of `create_hypertable`.
unfoldable pub execute : Statement → Catalog → Option Catalog
unfolding make_table make_column make_hypertable make_index
execute (create_table n cs key) s = some (make_table n cs key s)
execute (add_column n c) s = elim (lookup n s.tables) [
  | none ↦ none
  | some t ↦ some (with_table n (make_column c t) s)
]
execute (ensure_hypertable n column) s = elim (lookup n s.tables) [
  | none ↦ none
  | some t ↦ elim (make_hypertable column t) [ none ↦ none | some u ↦ some (with_table n u s) ]
]
execute (create_index n i) s = make_index n i s

-- Whether all have succeeded, and the catalogue after those that were run.
unfoldable pub execute_all : List Statement → Catalog → Bool × Catalog
unfolding execute
execute_all [] s = (true, s)
execute_all (x ∷ xs) s = elim (execute x s) [ none ↦ (false, s) | some t ↦ execute_all xs t ]
