-- ===== src/Tables/Fit.antt =====
-- Tables that `ensure_tables` can turn into hypertables and make its indexes on stay so.
use mathlib.Core.Option.{some-injective}
use mathlib.Core.List.{map-append}
use mathlib.Core.Path.{subst}
use portfolio_engine.Prelude.{
  String, ◌≡◌, refl, sym, ap, ◌∙◌, inl, inr, Bool, true, Bool-cases, Option-cases, some, List, [],
  ◌∷◌, ◌++◌, arith, str_eq, eq_iff, ◌||◌, ◌&&◌, not,
}
use portfolio_engine.Dict.{contains, lookup, lookup-insert}
use portfolio_engine.Database.Schema.{
  Column, Table, Catalog, Statement, create_table, add_column, ensure_hypertable, create_index,
  names, has_all, with_table, new_table, make_table, make_column, make_hypertable, can_partition,
  execute,
}
use portfolio_engine.Database.Schema.Steps.{make_index-Extends, contains-append}

-- The tables that become hypertables, and the columns of their indexes.
module _ (ns cols : List String) where
  -- The table has the columns, and is a hypertable or can be made one.
  abbrev pub is_fit : Table → Bool
  is_fit t = has_all cols (names t.columns) && (t.is_hypertable || can_partition "time" t)

  abbrev pub AreFit : Catalog → Type 0
  AreFit s =
      (n : String) (t : Table) → contains n ns ≡ true → lookup n s.tables ≡ some t → is_fit t ≡ true

  with_table-AreFit :
      (m : String) (u : Table) (s : Catalog)
      → (contains m ns ≡ true → is_fit u ≡ true)
      → AreFit s
      → AreFit (with_table m u s)
  with_table-AreFit m u s fit h n t k e = elim (Bool-cases (str_eq m n)) [
    | inl same ↦
        let there : u ≡ t = some-injective _ _ (rw (lookup-insert m n u s.tables, same) at e) in
        subst (λ x. is_fit x ≡ true) there (fit (ap (λ j. contains j ns) ((eq_iff m n).0 same) ∙ k))
    | inr other ↦ h n t k (rw (lookup-insert m n u s.tables, other) at e)
  ]

  has_all-append : (xs ys zs : List String) → has_all xs ys ≡ true → has_all xs (ys ++ zs) ≡ true
  has_all-append [] ys zs h = refl
  has_all-append (x ∷ xs) ys zs h =
      ground (arith, contains-append x ys zs, has_all-append xs ys zs (ground arith))

  make_column-is_fit : (c : Column) (t : Table) → is_fit t ≡ true → is_fit (make_column c t) ≡ true
  unfolding make_column
  make_column-is_fit c t h = elim (Bool-cases (contains c.name (names t.columns))) [
    | inl there ↦ rw (there, make_column) h
    | inr new ↦
        rw (new, make_column, map-append (λ (x : Column). x.name) t.columns (c ∷ []))
          (ground (
            arith,
            has_all-append cols (names t.columns) (c.name ∷ []),
            contains-append "time" (names t.columns) (c.name ∷ []),
          ))
  ]

  -- A table that a statement makes is fit.
  abbrev pub makes_fit : Statement → Bool
  makes_fit (create_table m cs key) = not (contains m ns) || is_fit (new_table cs key)
  makes_fit (add_column m c) = true
  makes_fit (ensure_hypertable m column) = true
  makes_fit (create_index m i) = true

  make_hypertable-is_fit :
      (t u : Table) (column : String)
      → is_fit t ≡ true
      → make_hypertable column t ≡ some u
      → is_fit u ≡ true
  unfolding make_hypertable
  make_hypertable-is_fit t u column h e = elim (Bool-cases t.is_hypertable) [
    | inl is ↦
        subst (λ x. is_fit x ≡ true) (some-injective _ _ (rw (is, make_hypertable) at e))
          (ground arith)
    | inr plain ↦ elim (Bool-cases (can_partition column t)) [
      | inl can ↦
          subst (λ x. is_fit x ≡ true) (some-injective _ _ (rw (plain, can, make_hypertable) at e))
            (ground arith)
      | inr cannot ↦ absurd (ground (arith, rw (plain, cannot, make_hypertable) at e))
    ]
  ]

  pub execute-AreFit :
      (x : Statement) (s v : Catalog)
      → makes_fit x ≡ true
      → execute x s ≡ some v
      → AreFit s
      → AreFit v
  unfolding execute make_table
  execute-AreFit (create_table m cs key) s v fit e h =
      subst AreFit (some-injective _ _ e) (elim (Option-cases (lookup m s.tables)) [
        | inl new ↦
            rw (new, make_table) (with_table-AreFit m (new_table cs key) s (λ k. ground arith) h)
        | inr (t, found) ↦ rw (found, make_table) h
      ])
  execute-AreFit (add_column m c) s v fit e h = elim (Option-cases (lookup m s.tables)) [
    | inl absent ↦ absurd (ground (arith, rw (absent, execute) at e))
    | inr (t, found) ↦
        subst AreFit (some-injective _ _ (rw (found, execute) at e))
          (with_table-AreFit m (make_column c t) s (λ k. make_column-is_fit c t (h m t k found)) h)
  ]
  execute-AreFit (ensure_hypertable m column) s v fit e h =
      elim (Option-cases (lookup m s.tables)) [
        | inl absent ↦ absurd (ground (arith, rw (absent, execute) at e))
        | inr (t, found) ↦ elim (Option-cases (make_hypertable column t)) [
          | inl refused ↦ absurd (ground (arith, rw (found, refused, execute) at e))
          | inr (u, made) ↦ subst AreFit (some-injective _ _ (rw (found, made, execute) at e)) (
              with_table-AreFit m u s (λ k. make_hypertable-is_fit t u column (h m t k found) made)
                h)
        ]
      ]
  execute-AreFit (create_index m i) s v fit e h =
      λ n t k e'. h n t k (ap (lookup n) (sym (make_index-Extends m i s v e).0) ∙ e')
