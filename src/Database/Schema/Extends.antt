-- ===== src/Database/Schema/Extends.antt =====
-- What stays in the catalogue while statements are run.
use mathlib.Core.Option.{some-injective}
use mathlib.Core.List.{append_assoc, append-nil}
use mathlib.Core.Path.{subst}
use portfolio_engine.Prelude.{
  String, ◌≡◌, refl, sym, ap, ◌∙◌, inl, inr, true, Bool-cases, none, some, List, [], ◌++◌, arith,
  str_eq, eq_iff,
}
use portfolio_engine.Dict.{contains, lookup, insert, keys, lookup-insert}
use portfolio_engine.Database.Schema.{
  Column, Table, Catalog, Statement, create_table, add_column, ensure_hypertable, create_index,
  names, with_table,
}

-- A table has kept its columns, in front of new ones, and its primary key, and is still a
-- hypertable if it was one.
abbrev pub TableExtends : Table → Table → Type 0
TableExtends t u =
    ((cs : List Column) × (u.columns ≡ t.columns ++ cs))
    × (u.primary_key ≡ t.primary_key)
    × (t.is_hypertable ≡ true → u.is_hypertable ≡ true)

-- Every table has been kept in this way, and every index.
abbrev pub Extends : Catalog → Catalog → Type 0
Extends s u =
    ((n : String) (t : Table)
      → lookup n s.tables ≡ some t
      → (v : Table) × (lookup n u.tables ≡ some v) × TableExtends t v)
    × ((n : String) → contains n (keys s.indexes) ≡ true → contains n (keys u.indexes) ≡ true)

-- What a statement asks for is there.
abbrev pub IsMade : Statement → Catalog → Type 0
IsMade (create_table n cs key) s = (t : Table) × (lookup n s.tables ≡ some t)
IsMade (add_column n c) s =
    (t : Table) × (lookup n s.tables ≡ some t) × (contains c.name (names t.columns) ≡ true)
IsMade (ensure_hypertable n column) s =
    (t : Table) × (lookup n s.tables ≡ some t) × (t.is_hypertable ≡ true)
IsMade (create_index n i) s = contains n (keys s.indexes) ≡ true

pub TableExtends-refl : (t : Table) → TableExtends t t
TableExtends-refl t = (([], sym (append-nil t.columns)), refl, λ e. e)

TableExtends-trans : (t u v : Table) → TableExtends t u → TableExtends u v → TableExtends t v
TableExtends-trans t u v ((cs, e), k, h) ((ds, e'), k', h') =
    ((cs ++ ds, e' ∙ ap (λ l. l ++ ds) e ∙ append_assoc t.columns cs ds), k' ∙ k, λ p. h' (h p))

pub Extends-refl : (s : Catalog) → Extends s s
Extends-refl s = (λ n t e. (t, e, TableExtends-refl t), λ n e. e)

pub Extends-trans : (s t u : Catalog) → Extends s t → Extends t u → Extends s u
Extends-trans s t u (f, i) (g, j) = (
  λ n x e.
      let (y, e', h) = f n x e in
      let (z, e'', k) = g n y e' in (z, e'', TableExtends-trans x y z h k),
  λ n e. j n (i n e),
)

pub with_table-Extends :
    (n : String) (t u : Table) (s : Catalog)
    → lookup n s.tables ≡ some t
    → TableExtends t u
    → Extends s (with_table n u s)
with_table-Extends n t u s e h = (
  λ k v e'. elim (Bool-cases (str_eq n k)) [
    | inl same ↦
        let here : lookup k (insert n u s.tables) ≡ some u =
          rw (lookup-insert n k u s.tables, same) in
        let key = (eq_iff n k).0 same in
        let was : t ≡ v = some-injective _ _ (sym e ∙ ap (λ j. lookup j s.tables) key ∙ e') in
        (u, here, subst (λ x. TableExtends x u) was h)
    | inr other ↦
        let there : lookup k (insert n u s.tables) ≡ some v =
          rw (lookup-insert n k u s.tables, other) e' in
        (v, there, TableExtends-refl v)
  ],
  λ k e'. e',
)

pub new_table-Extends :
    (n : String) (u : Table) (s : Catalog) → lookup n s.tables ≡ none → Extends s (with_table n u s)
new_table-Extends n u s e = (
  λ k v e'. elim (Bool-cases (str_eq n k)) [
    | inl same ↦
        absurd (ground (arith, sym e ∙ ap (λ j. lookup j s.tables) ((eq_iff n k).0 same) ∙ e'))
    | inr other ↦
        let there : lookup k (insert n u s.tables) ≡ some v =
          rw (lookup-insert n k u s.tables, other) e' in
        (v, there, TableExtends-refl v)
  ],
  λ k e'. e',
)
