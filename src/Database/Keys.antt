-- ===== src/Database/Keys.antt =====
-- Tables with a unique key: `ON CONFLICT … DO UPDATE` and `ON CONFLICT DO NOTHING`.
use mathlib.Core.Path.{subst}
use portfolio_engine.Prelude.{
  ℕ, String, ◌≡◌, refl, sym, ap, ◌∙◌, ◌≢◌, ◌↔◌, inl, inr, Bool, true, ◌&&◌, List, [], ◌∷◌, ◌++◌,
  All, Has, arith, ◌==◌, str_eq, eq_iff, if◌then◌else◌, Bool-cases,
}
use portfolio_engine.Database.Newest.{All-Has}

-- An equality test on keys that answers rightly.
pub record Key (K : Type 0) : Type 0 where
  pub beq : K → K → Bool
  pub beq_iff : (a b : K) → (beq a b ≡ true) ↔ (a ≡ b)

pub time_eq_iff : (a b : ℕ) → ((a == b) ≡ true) ↔ (a ≡ b)
time_eq_iff a b = ground arith

instance abbrev pub time_key : Key ℕ
time_key = record { beq = λ a b. a == b; beq_iff = time_eq_iff }

abbrev pub pair_eq : String × ℕ → String × ℕ → Bool
pair_eq a b = str_eq a.0 b.0 && a.1 == b.1

pub pair_eq_iff : (a b : String × ℕ) → (pair_eq a b ≡ true) ↔ (a ≡ b)
pair_eq_iff a b = ground (arith, eq_iff a.0 b.0)

instance abbrev pub pair_key : Key (String × ℕ)
pair_key = record { beq = pair_eq; beq_iff = pair_eq_iff }

module _ {R K : Type 0} ⦃k : Key K⦄ (key : R → K) where
  -- `INSERT … ON CONFLICT (key) DO UPDATE SET` every other column.
  unfoldable pub upsert : R → List R → List R
  upsert row [] = row ∷ []
  upsert row (r ∷ rows) = if k.beq (key r) (key row) then row ∷ rows else r ∷ upsert row rows

  -- `INSERT … ON CONFLICT DO NOTHING`.
  unfoldable pub insert_new : R → List R → List R
  insert_new row [] = row ∷ []
  insert_new row (r ∷ rows) = if k.beq (key r) (key row) then r ∷ rows else r ∷ insert_new row rows

  -- The primary key: no two rows have the same.
  abbrev pub IsKeyed : List R → Type 0
  IsKeyed [] = Unit
  IsKeyed (r ∷ rows) = All (λ q. key q ≢ key r) rows × IsKeyed rows

  pub Has-unique :
      (rows : List R) (a b : R) → IsKeyed rows → Has a rows → Has b rows → key a ≡ key b → a ≡ b
  Has-unique [] a b h m n e = elim m [ ]
  Has-unique (r ∷ rows) a b h (inl p) (inl q) e = sym p ∙ q
  Has-unique (r ∷ rows) a b h (inl p) (inr n) e =
      absurd (All-Has (λ q. key q ≢ key r) rows b h.0 n (sym e ∙ ap key (sym p)))
  Has-unique (r ∷ rows) a b h (inr m) (inl q) e =
      absurd (All-Has (λ q. key q ≢ key r) rows a h.0 m (e ∙ ap key (sym q)))
  Has-unique (r ∷ rows) a b h (inr m) (inr n) e = Has-unique rows a b h.1 m n e

  pub upsert-All :
      (P : R → Type 0) (row : R) (rows : List R) → P row → All P rows → All P (upsert row rows)
  unfolding upsert
  upsert-All P row [] p h = (p, tt)
  upsert-All P row (r ∷ rows) p h = ground (arith, upsert-All P row rows p h.1)

  pub upsert-IsKeyed : (row : R) (rows : List R) → IsKeyed rows → IsKeyed (upsert row rows)
  unfolding upsert
  upsert-IsKeyed row [] h = (tt, tt)
  upsert-IsKeyed row (r ∷ rows) h = elim (Bool-cases (k.beq (key r) (key row))) [
    | inl e ↦ rw e (subst (λ x. All (λ q. key q ≢ x) rows) ((k.beq_iff _ _).0 e) h.0, h.1)
    | inr e ↦ rw e (
      upsert-All (λ q. key q ≢ key r) row rows
          (λ p. absurd (ground (arith, (k.beq_iff (key r) (key row)).1 (sym p)))) h.0,
      upsert-IsKeyed row rows h.1,
    )
  ]

  -- A row with a new key is added at the end.
  pub upsert-new :
      (row : R) (rows : List R)
      → All (λ q. key q ≢ key row) rows
      → upsert row rows ≡ rows ++ row ∷ []
  unfolding upsert
  upsert-new row [] h = refl
  upsert-new row (r ∷ rows) h = elim (Bool-cases (k.beq (key r) (key row))) [
    | inl e ↦ absurd (h.0 ((k.beq_iff (key r) (key row)).0 e))
    | inr e ↦ rw e (ap (λ l. r ∷ l) (upsert-new row rows h.1))
  ]

  pub Has-upsert : (row : R) (rows : List R) → Has row (upsert row rows)
  unfolding upsert
  Has-upsert row [] = inl refl
  Has-upsert row (r ∷ rows) = elim (Bool-cases (k.beq (key r) (key row))) [
    | inl e ↦ rw e (inl refl)
    | inr e ↦ rw e (inr (Has-upsert row rows))
  ]

  -- A row under another key is neither added nor removed.
  pub Has-upsert_other :
      (row : R) (rows : List R) (q : R) → key q ≢ key row → Has q (upsert row rows) ↔ Has q rows
  unfolding upsert
  Has-upsert_other row [] q n =
      (λ h. elim h [ inl e ↦ absurd (n (ap key (sym e))) | inr x ↦ x ], λ x. absurd x)
  Has-upsert_other row (r ∷ rows) q n = elim (Bool-cases (k.beq (key r) (key row))) [
    | inl e ↦ rw e (
      λ h. elim h [ inl p ↦ absurd (n (ap key (sym p))) | inr m ↦ inr m ],
      λ h. elim h [ inl p ↦ absurd (n (ap key (sym p) ∙ (k.beq_iff _ _).0 e)) | inr m ↦ inr m ],
    )
    | inr e ↦ rw e (
      λ h. elim h [ inl p ↦ inl p | inr m ↦ inr ((Has-upsert_other row rows q n).0 m) ],
      λ h. elim h [ inl p ↦ inl p | inr m ↦ inr ((Has-upsert_other row rows q n).1 m) ],
    )
  ]

  pub insert_new-All :
      (P : R → Type 0) (row : R) (rows : List R) → P row → All P rows → All P (insert_new row rows)
  unfolding insert_new
  insert_new-All P row [] p h = (p, tt)
  insert_new-All P row (r ∷ rows) p h = ground (arith, insert_new-All P row rows p h.1)

  pub insert_new-IsKeyed : (row : R) (rows : List R) → IsKeyed rows → IsKeyed (insert_new row rows)
  unfolding insert_new
  insert_new-IsKeyed row [] h = (tt, tt)
  insert_new-IsKeyed row (r ∷ rows) h = elim (Bool-cases (k.beq (key r) (key row))) [
    | inl e ↦ rw e h
    | inr e ↦ rw e (
      insert_new-All (λ q. key q ≢ key r) row rows
          (λ p. absurd (ground (arith, (k.beq_iff (key r) (key row)).1 (sym p)))) h.0,
      insert_new-IsKeyed row rows h.1,
    )
  ]

  -- What is stored stays.
  pub Has-insert_new : (row : R) (rows : List R) (q : R) → Has q rows → Has q (insert_new row rows)
  unfolding insert_new
  Has-insert_new row [] q m = elim m [ ]
  Has-insert_new row (r ∷ rows) q m = elim (Bool-cases (k.beq (key r) (key row))) [
    | inl e ↦ rw e m
    | inr e ↦ rw e (elim m [ inl p ↦ inl p | inr n ↦ inr (Has-insert_new row rows q n) ])
  ]
