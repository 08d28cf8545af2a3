-- ===== src/Tables/Again.antt =====
-- A program can start again, also after others have.
use portfolio_engine.Prelude.{◌≡◌, true}
use portfolio_engine.Database.Schema.{Catalog}
use portfolio_engine.Database.Schema.Extends.{Extends}
use portfolio_engine.Database.Schema.Again.{execute_all-again}
use portfolio_engine.Tables.{Program, statements_of, ensure_tables}

-- Once the statements of a program have succeeded, and whatever has come to the catalogue since
-- (rows, columns, tables, indexes, hypertables) as long as nothing was lost, they succeed again and
-- change nothing.
pub ensure_tables-again :
    (p : Program) (s u : Catalog)
    → (ensure_tables p s).0 ≡ true
    → Extends (ensure_tables p s).1 u
    → ensure_tables p u ≡ (true, u)
unfolding ensure_tables
ensure_tables-again p s u e h = execute_all-again (statements_of p) s u e h
