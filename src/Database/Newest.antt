-- ===== src/Database/Newest.antt =====
-- `ORDER BY time DESC LIMIT 1`, and `SELECT DISTINCT ON (symbol) … ORDER BY symbol, time DESC`
-- read into a dictionary by symbol.
use mathlib.Core.Path.{subst}
use portfolio_engine.Prelude.{
  ℕ, ◌≤◌, String, ◌≡◌, refl, Bool, true, false, Bool-cases, inl, inr, ◌∙◌, ap, sym, ◌≢◌, ◌⊎◌, Has,
  Option, none, some, List, [], ◌∷◌, ◌++◌, All, arith, leb, str_eq, eq_iff, if◌then◌else◌,
}
use portfolio_engine.Dict.{Dict, lookup, insert, lookup-insert}

-- `filter` by a Boolean test, as a WHERE clause does.
module _ {ℓ} {R : Type ℓ} where
  abbrev pub where_true : (R → Bool) → List R → List R
  where_true p [] = []
  where_true p (r ∷ rows) = if p r then r ∷ where_true p rows else where_true p rows

  pub where_true-append :
      (p : R → Bool) (xs ys : List R) → where_true p (xs ++ ys) ≡ where_true p xs ++ where_true p ys
  where_true-append p [] ys = refl
  where_true-append p (x ∷ xs) ys = ground (arith, where_true-append p xs ys)

  pub where_true-All :
      (P : R → Type 0) (p : R → Bool) (xs : List R) → All P xs → All P (where_true p xs)
  where_true-All P p [] h = tt
  where_true-All P p (x ∷ xs) h = elim (Bool-cases (p x)) [
    | inl e ↦ rw e (h.0, where_true-All P p xs h.1)
    | inr e ↦ rw e (where_true-All P p xs h.1)
  ]

  pub where_true_holds : (p : R → Bool) (xs : List R) → All (λ r. p r ≡ true) (where_true p xs)
  where_true_holds p [] = tt
  where_true_holds p (x ∷ xs) = elim (Bool-cases (p x)) [
    | inl e ↦ rw e (e, where_true_holds p xs)
    | inr e ↦ rw e (where_true_holds p xs)
  ]

  pub where_true-none :
      (p : R → Bool) (xs : List R) → All (λ r. p r ≡ false) xs → where_true p xs ≡ []
  where_true-none p [] h = refl
  where_true-none p (x ∷ xs) h = ground (arith, where_true-none p xs h.1)

module _ {R : Type 0} where
  pub Has-where_true :
      (p : R → Bool) (rows : List R) (r : R) → Has r (where_true p rows) → Has r rows × (p r ≡ true)
  Has-where_true p [] r h = elim h [ ]
  Has-where_true p (x ∷ rows) r h = elim (Bool-cases (p x)) [
    | inl e ↦ ground (arith, Has-where_true p rows r)
    | inr e ↦ ground (arith, Has-where_true p rows r)
  ]

  where_true-Has :
      (p : R → Bool) (rows : List R) (r : R) → Has r rows → p r ≡ true → Has r (where_true p rows)
  where_true-Has p [] r h e = elim h [ ]
  where_true-Has p (x ∷ rows) r (inl h) e = rw (ap p h ∙ e) (inl h)
  where_true-Has p (x ∷ rows) r (inr h) e = elim (Bool-cases (p x)) [
    | inl t ↦ rw t (inr (where_true-Has p rows r h e))
    | inr t ↦ rw t (where_true-Has p rows r h e)
  ]

  pub All-Has : (P : R → Type 0) (rows : List R) (r : R) → All P rows → Has r rows → P r
  All-Has P [] r h m = elim m [ ]
  All-Has P (x ∷ rows) r h (inl e) = subst P e h.0
  All-Has P (x ∷ rows) r h (inr m) = All-Has P rows r h.1 m

module _ {R : Type 0} (time : R → ℕ) where
  -- The later of a row and the best so far; of two at one time the one seen first.
  abbrev pub later : R → Option R → R
  later r none = r
  later r (some best) = if leb (time r) (time best) then best else r

  -- The row that `ORDER BY time DESC LIMIT 1` gives.
  unfoldable pub newest_from : Option R → List R → Option R
  newest_from best [] = best
  newest_from best (r ∷ rows) = newest_from (some (later r best)) rows

  unfoldable pub newest : List R → Option R
  unfolding newest_from
  newest = newest_from none

  newest_from-some :
      (best : R) (rows : List R) (r : R)
      → newest_from (some best) rows ≡ some r
      → (time best ≤ time r) × All (λ q. time q ≤ time r) rows × ((best ≡ r) ⊎ Has r rows)
  unfolding newest_from
  newest_from-some best [] r e = ground arith
  newest_from-some best (q ∷ rows) r e =
      ground (arith, newest_from-some (later q (some best)) rows r e)

  newest_from-ne-none : (best : R) (rows : List R) → newest_from (some best) rows ≢ none
  unfolding newest_from
  newest_from-ne-none best [] e = cc
  newest_from-ne-none best (q ∷ rows) e = newest_from-ne-none (later q (some best)) rows e

  -- The row that is found is in the table, and no row of the table is later.
  pub newest-IsLatest :
      (rows : List R) (r : R) → newest rows ≡ some r → Has r rows × All (λ q. time q ≤ time r) rows
  unfolding newest newest_from
  newest-IsLatest [] r e = cc
  newest-IsLatest (q ∷ rows) r e = ground (arith, newest_from-some q rows r e)

  pub newest-none : (rows : List R) → newest rows ≡ none → rows ≡ []
  unfolding newest newest_from
  newest-none [] e = refl
  newest-none (q ∷ rows) e = absurd (newest_from-ne-none q rows e)

  module _ (symbol : R → String) where
    -- The entry under a row's symbol becomes the later of the two.
    abbrev pub keep : R → Dict R → Dict R
    keep r d = insert (symbol r) (later r (lookup (symbol r) d)) d

    unfoldable pub distinct_on_from : Dict R → List R → Dict R
    distinct_on_from d [] = d
    distinct_on_from d (r ∷ rows) = distinct_on_from (keep r d) rows

    unfoldable pub distinct_on : List R → Dict R
    unfolding distinct_on_from
    distinct_on = distinct_on_from []

    lookup-keep :
        (r : R) (s : String) (d : Dict R)
        → lookup s (keep r d)
          ≡ (if str_eq (symbol r) s then some (later r (lookup s d)) else lookup s d)
    lookup-keep r s d = elim (Bool-cases (str_eq (symbol r) s)) [
      | inl e ↦ rw (
        lookup-insert (symbol r) s (later r (lookup (symbol r) d)) d,
        e,
        (eq_iff (symbol r) s).0 e,
      )
      | inr e ↦ rw (lookup-insert (symbol r) s (later r (lookup (symbol r) d)) d, e)
    ]

    lookup-distinct_on_from :
        (s : String) (d : Dict R) (rows : List R)
        → lookup s (distinct_on_from d rows)
          ≡ newest_from (lookup s d) (where_true (λ r. str_eq (symbol r) s) rows)
    unfolding newest_from distinct_on_from
    lookup-distinct_on_from s d [] = refl
    lookup-distinct_on_from s d (r ∷ rows) = elim (Bool-cases (str_eq (symbol r) s)) [
      | inl e ↦ rw e (lookup-distinct_on_from s (keep r d) rows ∙ rw (lookup-keep r s d, e))
      | inr e ↦ rw e (lookup-distinct_on_from s (keep r d) rows ∙ rw (lookup-keep r s d, e))
    ]

    -- The entry under a symbol is the newest of that symbol's rows.
    lookup-distinct_on :
        (s : String) (rows : List R)
        → lookup s (distinct_on rows) ≡ newest (where_true (λ r. str_eq (symbol r) s) rows)
    unfolding newest distinct_on lookup
    lookup-distinct_on s rows = lookup-distinct_on_from s [] rows

    -- The entry under a symbol in the answer to `DISTINCT ON (symbol) … WHERE p`: a row of that
    -- symbol that meets the condition, and no such row is later.
    pub distinct_on-IsLatest :
        (p : R → Bool) (rows : List R) (s : String) (r : R)
        → lookup s (distinct_on (where_true p rows)) ≡ some r
        → (symbol r ≡ s)
          × (p r ≡ true)
          × Has r rows
          × ((q : R) → Has q rows → symbol q ≡ s → p q ≡ true → time q ≤ time r)
    distinct_on-IsLatest p rows s r e =
        let by_symbol : R → Bool = λ q. str_eq (symbol q) s in
        let (found, top) =
          newest-IsLatest (where_true by_symbol (where_true p rows)) r
            (sym (lookup-distinct_on s (where_true p rows)) ∙ e) in
        let (met, same) = Has-where_true by_symbol (where_true p rows) r found in
        let (stored, ok) = Has-where_true p rows r met in
        (
          (eq_iff (symbol r) s).0 same,
          ok,
          stored,
          λ q h t u.
              All-Has (λ x. time x ≤ time r) _ q top
                (where_true-Has by_symbol (where_true p rows) q (where_true-Has p rows q h u)
                  ((eq_iff (symbol q) s).1 t)),
        )
