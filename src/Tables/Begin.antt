-- ===== src/Tables/Begin.antt =====
-- `conn = connect()` and `ensure_tables(conn)`, with which `main` of each service begins.
use portfolio_engine.Prelude.{
  ℕ, suc, ◌<◌, ◌≡◌, ◌↔◌, inl, inr, Bool, true, false, Option, some, arith,
}
use portfolio_engine.Database.Schema.{Catalog}
use portfolio_engine.Database.Connect.{
  connected, raised, no_connection, connect, connect-Ends, max_retries,
}
use portfolio_engine.Tables.{Program, ensure_tables}

module _ {C : Type 0} (attempt : ℕ → Option C) (p : Program) (catalog : Catalog) where
  -- Whether nothing raises. Without a connection, `ensure_tables` does.
  unfoldable pub begins : Bool
  begins = elim (connect attempt) [
    | connected _ _ ↦ (ensure_tables p catalog).0
    | raised ↦ false
    | no_connection ↦ false
  ]

  -- One of the ten attempts to connect works, and the statements succeed.
  abbrev pub CanBegin : Type 0
  CanBegin =
      ((k : ℕ) × (k < max_retries) × (x : C) × (attempt (suc k) ≡ some x))
      × ((ensure_tables p catalog).0 ≡ true)

  pub begins_iff : (begins ≡ true) ↔ CanBegin
  unfolding begins
  begins_iff = elim (connect-Ends attempt) [
    | inl (x, k, l, fails, works, e) ↦ rw (e, begins) (λ h. ((k, l, x, works), h), λ (_, h). h)
    | inr (fails, e) ↦
        rw (e, begins)
          (
            λ h. absurd (ground arith),
            λ up. let (k, l, y, works) = up.0 in absurd (ground (arith, fails k l)),
          )
  ]
