-- ===== src/Tables/Columns.antt =====
-- When a table has a column, once statements have been run.
use mathlib.Core.Option.{some-injective}
use mathlib.Core.List.{map-append}
use mathlib.Core.Path.{subst}
use portfolio_engine.Prelude.{
  String, ◌≡◌, sym, ap, ◌∙◌, inl, inr, Bool, true, false, Bool-cases, Option-cases, none, some,
  List, [], ◌∷◌, All, arith, str_eq, eq_iff, ◌||◌, ◌&&◌, if◌then◌else◌,
}
use portfolio_engine.Dict.{contains, lookup, lookup-insert}
use portfolio_engine.Database.Schema.{
  Column, Table, Catalog, Statement, create_table, add_column, ensure_hypertable, create_index,
  names, with_table, new_table, make_table, make_column, make_hypertable, execute, execute_all,
}
use portfolio_engine.Database.Schema.Extends.{IsMade}
use portfolio_engine.Database.Schema.Steps.{make_index-Extends, execute-Extends, contains-append}

module _ (n col : String) where
  -- If there is the table, it has the column.
  abbrev pub Holds : Catalog → Type 0
  Holds s = (t : Table) → lookup n s.tables ≡ some t → contains col (names t.columns) ≡ true

  -- The statement does not make the table without the column.
  abbrev keeps : Statement → Bool
  keeps (create_table m cs key) = if str_eq m n then contains col (names cs) else true
  keeps (add_column m c) = true
  keeps (ensure_hypertable m column) = true
  keeps (create_index m i) = true

  abbrev makes_column : Statement → Bool
  makes_column (create_table m cs key) = false
  makes_column (add_column m c) = str_eq m n && str_eq c.name col
  makes_column (ensure_hypertable m column) = false
  makes_column (create_index m i) = false

  -- No table of the name is there, unless the statement makes it.
  replaced-none :
      (m : String) (t u : Table) (s v : Catalog)
      → lookup m s.tables ≡ some t
      → lookup n s.tables ≡ none
      → some (with_table m u s) ≡ some v
      → lookup n v.tables ≡ none
  replaced-none m t u s v found missing e = elim (Bool-cases (str_eq m n)) [
    | inl same ↦
        absurd
          (ground (arith, sym found ∙ ap (λ j. lookup j s.tables) ((eq_iff m n).0 same) ∙ missing))
    | inr other ↦
        subst (λ x. lookup n x.tables ≡ none) (some-injective _ _ e)
          (rw (lookup-insert m n u s.tables, other) missing)
  ]

  make_table-new :
      (m : String) (cs : List Column) (key : List String) (s : Catalog)
      → keeps (create_table m cs key) ≡ true
      → lookup n s.tables ≡ none
      → Holds (make_table m cs key s)
  unfolding make_table
  make_table-new m cs key s k missing = elim (Option-cases (lookup m s.tables)) [
    | inl new ↦ elim (Bool-cases (str_eq m n)) [
      | inl same ↦
          rw (new, make_table, lookup-insert m n (new_table cs key) s.tables, same)
            (λ t e.
              subst (λ x. contains col (names x.columns) ≡ true) (some-injective _ _ e)
                (rw same at k))
      | inr other ↦
          rw (new, make_table, lookup-insert m n (new_table cs key) s.tables, other)
            (λ t e. absurd (ground (arith, sym missing ∙ e)))
    ]
    | inr (t, found) ↦ rw (found, make_table) (λ u e. absurd (ground (arith, sym missing ∙ e)))
  ]

  execute-new :
      (x : Statement) (s v : Catalog)
      → keeps x ≡ true
      → lookup n s.tables ≡ none
      → execute x s ≡ some v
      → Holds v
  unfolding execute
  execute-new (create_table m cs key) s v k missing e =
      subst Holds (some-injective _ _ e) (make_table-new m cs key s k missing)
  execute-new (add_column m c) s v k missing e = elim (Option-cases (lookup m s.tables)) [
    | inl absent ↦ absurd (ground (arith, rw (absent, execute) at e))
    | inr (t, found) ↦
        let still =
          replaced-none m t (make_column c t) s v found missing (rw (found, execute) at e) in
        λ u e'. absurd (ground (arith, sym still ∙ e'))
  ]
  execute-new (ensure_hypertable m column) s v k missing e =
      elim (Option-cases (lookup m s.tables)) [
        | inl absent ↦ absurd (ground (arith, rw (absent, execute) at e))
        | inr (t, found) ↦ elim (Option-cases (make_hypertable column t)) [
          | inl refused ↦ absurd (ground (arith, rw (found, refused, execute) at e))
          | inr (u, made) ↦
              let still = replaced-none m t u s v found missing (rw (found, made, execute) at e) in
              λ w e'. absurd (ground (arith, sym still ∙ e'))
        ]
      ]
  execute-new (create_index m i) s v k missing e = λ t e'.
      absurd
        (ground (arith, sym missing ∙ ap (lookup n) (sym (make_index-Extends m i s v e).0) ∙ e'))

  execute-Holds :
      (x : Statement) (s v : Catalog) → keeps x ≡ true → execute x s ≡ some v → Holds s → Holds v
  execute-Holds x s v k e h = elim (Option-cases (lookup n s.tables)) [
    | inl missing ↦ execute-new x s v k missing e
    | inr (t, found) ↦ λ u e'.
        let (w, e'', ((cs, more), _, _)) = (execute-Extends x s v e).0.0 n t found in
        let same : w ≡ u = some-injective _ _ (sym e'' ∙ e') in
        subst (λ y. contains col (names y.columns) ≡ true) same
          (ap (λ l. contains col (names l)) more
            ∙ ap (contains col) (map-append (λ (y : Column). y.name) t.columns cs)
            ∙ contains-append col (names t.columns) (names cs)
            ∙ ground (arith, h t found))
  ]

  abbrev pub all_keep : List Statement → Bool
  all_keep [] = true
  all_keep (x ∷ xs) = keeps x && all_keep xs

  pub execute_all-Holds :
      (xs : List Statement) (s : Catalog)
      → all_keep xs ≡ true
      → Holds s
      → Holds (execute_all xs s).1
  unfolding execute_all
  execute_all-Holds [] s k h = h
  execute_all-Holds (x ∷ xs) s k h = elim (Option-cases (execute x s)) [
    | inl fails ↦ rw (fails, execute_all) h
    | inr (t, works) ↦
        rw (works, execute_all)
          (execute_all-Holds xs t (ground arith) (execute-Holds x s t (ground arith) works h))
  ]

  abbrev pub any_makes : List Statement → Bool
  any_makes [] = false
  any_makes (x ∷ xs) = makes_column x || any_makes xs

  makes_column-Holds : (x : Statement) (s : Catalog) → makes_column x ≡ true → IsMade x s → Holds s
  makes_column-Holds (create_table m cs key) s k h = absurd (ground arith)
  makes_column-Holds (add_column m c) s k (t, e, there) = λ u e'.
      let table : m ≡ n = (eq_iff m n).0 (ground arith) in
      let name : c.name ≡ col = (eq_iff c.name col).0 (ground arith) in
      let same : t ≡ u = some-injective _ _ (sym e ∙ ap (λ j. lookup j s.tables) table ∙ e') in
      subst (λ y. contains col (names y.columns) ≡ true) same
        (ap (λ j. contains j (names t.columns)) (sym name) ∙ there)
  makes_column-Holds (ensure_hypertable m column) s k h = absurd (ground arith)
  makes_column-Holds (create_index m i) s k h = absurd (ground arith)

  pub any_makes-Holds :
      (xs : List Statement) (s : Catalog) → any_makes xs ≡ true → All (λ x. IsMade x s) xs → Holds s
  any_makes-Holds [] s k h = absurd (ground arith)
  any_makes-Holds (x ∷ xs) s k h = elim (Bool-cases (makes_column x)) [
    | inl this ↦ makes_column-Holds x s this h.0
    | inr later ↦ any_makes-Holds xs s (ground arith) h.1
  ]
