-- ===== src/Database/Schema/Steps.antt =====
-- What a statement leaves in the catalogue.
use mathlib.Core.Option.{some-injective}
use mathlib.Core.List.{map-append, append-nil}
use mathlib.Core.Path.{subst}
use portfolio_engine.Prelude.{
  String, ◌≡◌, refl, sym, ◌∙◌, inl, inr, true, false, Bool-cases, Option-cases, some, List, [], ◌∷◌,
  ◌++◌, arith, ◌||◌,
}
use portfolio_engine.Dict.{
  contains, lookup, insert, keys, lookup-insert_self, contains-keys-insert, str_eq_refl,
}
use portfolio_engine.Database.Schema.{
  Column, Table, Index, Catalog, Statement, create_table, add_column, ensure_hypertable,
  create_index, names, with_table, make_table, make_column, make_hypertable, make_index,
  can_partition, has_all, execute,
}
use portfolio_engine.Database.Schema.Extends.{
  TableExtends, Extends, IsMade, TableExtends-refl, Extends-refl, with_table-Extends,
  new_table-Extends,
}

make_column-TableExtends : (c : Column) (t : Table) → TableExtends t (make_column c t)
unfolding make_column
make_column-TableExtends c t = elim (Bool-cases (contains c.name (names t.columns))) [
  | inl there ↦ rw there (TableExtends-refl t)
  | inr new ↦ rw new ((c ∷ [], refl), refl, λ e. e)
]

pub contains-append :
    (s : String) (xs ys : List String) → contains s (xs ++ ys) ≡ (contains s xs || contains s ys)
unfolding contains
contains-append s [] ys = refl
contains-append s (x ∷ xs) ys = ground (arith, contains-append s xs ys)

make_column-contains :
    (c : Column) (t : Table) → contains c.name (names (make_column c t).columns) ≡ true
unfolding make_column contains
make_column-contains c t = elim (Bool-cases (contains c.name (names t.columns))) [
  | inl there ↦ rw (there, make_column) there
  | inr new ↦
      rw (new, make_column)
        (rw (map-append (λ (x : Column). x.name) t.columns (c ∷ [])) (
          ground
            (arith, contains-append c.name (names t.columns) (c.name ∷ []), str_eq_refl c.name)))
]

as_hypertable : Table → Table
as_hypertable t = record t { is_hypertable = true }

as_hypertable-Extends :
    (t u : Table) → some (as_hypertable t) ≡ some u → TableExtends t u × (u.is_hypertable ≡ true)
unfolding as_hypertable
as_hypertable-Extends t u e =
    subst (λ x. TableExtends t x × (x.is_hypertable ≡ true)) (some-injective _ _ e)
      ((([], sym (append-nil t.columns)), refl, λ _. refl), refl)

make_hypertable-Extends :
    (column : String) (t u : Table)
    → make_hypertable column t ≡ some u
    → TableExtends t u × (u.is_hypertable ≡ true)
unfolding make_hypertable as_hypertable
make_hypertable-Extends column t u e = elim (Bool-cases t.is_hypertable) [
  | inl is ↦ as_hypertable-Extends t u (rw (is, make_hypertable) at e)
  | inr plain ↦ elim (Bool-cases (can_partition column t)) [
    | inl can ↦ as_hypertable-Extends t u (rw (plain, can, make_hypertable) at e)
    | inr cannot ↦ absurd (ground (arith, rw (plain, cannot, make_hypertable) at e))
  ]
]

add_index-Extends :
    (n : String) (i : Index) (s : Catalog) → Extends s (record s { indexes = insert n i s.indexes })
add_index-Extends n i s = (
  λ k t e. (t, e, TableExtends-refl t),
  λ k e. rw (contains-keys-insert n k i s.indexes) (ground (arith, e)),
)

pub make_index-Extends :
    (n : String) (i : Index) (s u : Catalog)
    → make_index n i s ≡ some u
    → (u.tables ≡ s.tables) × Extends s u × (contains n (keys u.indexes) ≡ true)
unfolding make_index
make_index-Extends n i s u e = elim (Bool-cases (contains n (keys s.indexes))) [
  | inl there ↦
      let same : s ≡ u = some-injective _ _ (rw (there, make_index) at e) in
      subst (λ x. (x.tables ≡ s.tables) × Extends s x × (contains n (keys x.indexes) ≡ true)) same
        (refl, Extends-refl s, there)
  | inr new ↦ elim (Option-cases (lookup i.table s.tables)) [
    | inl missing ↦ absurd (ground (arith, rw (new, missing, make_index) at e))
    | inr (t, found) ↦ elim (Bool-cases (has_all i.columns (names t.columns))) [
      | inl has ↦
          let made : Catalog = record s { indexes = insert n i s.indexes } in
          let same : made ≡ u = some-injective _ _ (rw (new, found, has, make_index) at e) in
          subst (λ x. (x.tables ≡ s.tables) × Extends s x × (contains n (keys x.indexes) ≡ true))
            same
            (
              refl,
              add_index-Extends n i s,
              contains-keys-insert n n i s.indexes ∙ ground (arith, str_eq_refl n),
            )
      | inr lacks ↦ absurd (ground (arith, rw (new, found, lacks, make_index) at e))
    ]
  ]
]

on_table :
    (n : String) (t u : Table) (s v : Catalog)
    → lookup n s.tables ≡ some t
    → TableExtends t u
    → some (with_table n u s) ≡ some v
    → Extends s v × (lookup n v.tables ≡ some u)
on_table n t u s v e h same =
    subst (λ x. Extends s x × (lookup n x.tables ≡ some u)) (some-injective _ _ same)
      (with_table-Extends n t u s e h, lookup-insert_self n u s.tables)

make_table-Extends :
    (n : String) (cs : List Column) (key : List String) (s : Catalog)
    → Extends s (make_table n cs key s) × IsMade (create_table n cs key) (make_table n cs key s)
unfolding make_table
make_table-Extends n cs key s = elim (Option-cases (lookup n s.tables)) [
  | inl new ↦
      let t : Table = record {
        columns = cs;
        primary_key = key;
        is_hypertable = false;
        has_rows = false;
      } in
      rw (new, make_table) (new_table-Extends n t s new, (t, lookup-insert_self n t s.tables))
  | inr (t, found) ↦ rw (found, make_table) (Extends-refl s, (t, found))
]

-- A statement that succeeds keeps what was there, and what it asks for is there then.
pub execute-Extends :
    (x : Statement) (s u : Catalog) → execute x s ≡ some u → Extends s u × IsMade x u
unfolding execute
execute-Extends (create_table n cs key) s u e =
    subst (λ v. Extends s v × IsMade (create_table n cs key) v) (some-injective _ _ e)
      (make_table-Extends n cs key s)
execute-Extends (add_column n c) s u e = elim (Option-cases (lookup n s.tables)) [
  | inl missing ↦ absurd (ground (arith, rw (missing, execute) at e))
  | inr (t, found) ↦
      let h =
        on_table n t (make_column c t) s u found (make_column-TableExtends c t)
          (rw (found, execute) at e) in
      (h.0, (make_column c t, h.1, make_column-contains c t))
]
execute-Extends (ensure_hypertable n column) s u e = elim (Option-cases (lookup n s.tables)) [
  | inl missing ↦ absurd (ground (arith, rw (missing, execute) at e))
  | inr (t, found) ↦ elim (Option-cases (make_hypertable column t)) [
    | inl refused ↦ absurd (ground (arith, rw (found, refused, execute) at e))
    | inr (v, made) ↦
        let (more, is) = make_hypertable-Extends column t v made in
        let h = on_table n t v s u found more (rw (found, made, execute) at e) in
        (h.0, (v, h.1, is))
  ]
]
execute-Extends (create_index n i) s u e =
    let (_, more, there) = make_index-Extends n i s u e in (more, there)
