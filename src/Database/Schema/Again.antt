-- ===== src/Database/Schema/Again.antt =====
-- The statements can be run again, by the same service or by another.
use mathlib.Core.List.{map-append}
use mathlib.Core.Path.{subst}
use portfolio_engine.Prelude.{
  String, ◌≡◌, refl, sym, ap, ◌∙◌, inl, inr, true, Option-cases, none, some, List, [], ◌∷◌, All,
  All-imp, arith, if◌then◌else◌,
}
use portfolio_engine.Dict.{contains, lookup, insert-lookup}
use portfolio_engine.Database.Schema.{
  Column, Table, Catalog, Statement, create_table, add_column, ensure_hypertable, create_index,
  names, with_table, make_table, make_column, make_hypertable, make_index, can_partition, execute,
  execute_all,
}
use portfolio_engine.Database.Schema.Extends.{Extends, IsMade, Extends-refl, Extends-trans}
use portfolio_engine.Database.Schema.Steps.{execute-Extends, contains-append}

IsMade-Extends : (x : Statement) (s u : Catalog) → Extends s u → IsMade x s → IsMade x u
IsMade-Extends (create_table n cs key) s u (f, i) (t, e) = let (v, e', _) = f n t e in (v, e')
IsMade-Extends (add_column n c) s u (f, i) (t, e, h) =
    let (v, e', ((cs, more), _, _)) = f n t e in
    (
      v,
      e',
      ap (λ l. contains c.name (names l)) more
          ∙ ap (contains c.name) (map-append (λ (x : Column). x.name) t.columns cs)
          ∙ contains-append c.name (names t.columns) (names cs)
          ∙ ground (arith, h),
    )
IsMade-Extends (ensure_hypertable n column) s u (f, i) (t, e, h) =
    let (v, e', (_, _, k)) = f n t e in (v, e', k h)
IsMade-Extends (create_index n x) s u (f, i) h = i n h

with_same :
    (n : String) (t : Table) (s : Catalog) → lookup n s.tables ≡ some t → with_table n t s ≡ s
with_same n t s e = ap (λ d. record s { tables = d }) (insert-lookup n t s.tables e)

pub make_hypertable-same :
    (column : String) (t : Table) → t.is_hypertable ≡ true → make_hypertable column t ≡ some t
unfolding make_hypertable
make_hypertable-same column t h =
    ap
      (λ b.
        if b
        then some t
        else if can_partition column t
        then some record t { is_hypertable = true }
        else none)
      h

made-execute : (x : Statement) (s : Catalog) → IsMade x s → execute x s ≡ some s
unfolding execute make_table make_column make_index
made-execute (create_table n cs key) s (t, e) = rw (e, execute, make_table) refl
made-execute (add_column n c) s (t, e, h) =
    rw (e, h, execute, make_column) (ap some (with_same n t s e))
made-execute (ensure_hypertable n column) s (t, e, h) =
    rw (e, make_hypertable-same column t h, execute) (ap some (with_same n t s e))
made-execute (create_index n i) s h = rw (h, execute, make_index) refl

execute_all-made :
    (xs : List Statement) (s : Catalog) → All (λ x. IsMade x s) xs → execute_all xs s ≡ (true, s)
unfolding execute_all
execute_all-made [] s h = refl
execute_all-made (x ∷ xs) s h = rw (made-execute x s h.0, execute_all) (execute_all-made xs s h.1)

-- Whether the statements succeed or not, nothing that was there is lost.
pub execute_all-Extends : (xs : List Statement) (s : Catalog) → Extends s (execute_all xs s).1
unfolding execute_all
execute_all-Extends [] s = Extends-refl s
execute_all-Extends (x ∷ xs) s = elim (Option-cases (execute x s)) [
  | inl fails ↦ rw (fails, execute_all) (Extends-refl s)
  | inr (t, works) ↦
      rw (works, execute_all)
        (Extends-trans s t _ (execute-Extends x s t works).0 (execute_all-Extends xs t))
]

pub execute_all-All :
    (xs : List Statement) (s : Catalog)
    → (execute_all xs s).0 ≡ true
    → All (λ x. IsMade x (execute_all xs s).1) xs
unfolding execute_all
execute_all-All [] s e = tt
execute_all-All (x ∷ xs) s e = elim (Option-cases (execute x s)) [
  | inl fails ↦ absurd (ground (arith, rw (fails, execute_all) at e))
  | inr (t, works) ↦
      let step : execute_all (x ∷ xs) s ≡ execute_all xs t = rw (works, execute_all) refl in
      subst (λ r. All (λ y. IsMade y r.1) (x ∷ xs)) (sym step)
        (
          IsMade-Extends x t _ (execute_all-Extends xs t) (execute-Extends x s t works).1,
          execute_all-All xs t (ap (λ r. r.0) (sym step) ∙ e),
        )
]

-- Once the statements have succeeded, and whatever has come to the catalogue since (rows, columns,
-- tables, indexes) as long as nothing was dropped, they succeed again and change nothing.
pub execute_all-again :
    (xs : List Statement) (s u : Catalog)
    → (execute_all xs s).0 ≡ true
    → Extends (execute_all xs s).1 u
    → execute_all xs u ≡ (true, u)
execute_all-again xs s u e h =
    execute_all-made xs u (All-imp xs (λ x k. IsMade-Extends x _ u h k) (execute_all-All xs s e))
