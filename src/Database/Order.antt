-- ===== src/Database/Order.antt =====
-- `ORDER BY time ASC`. SQL leaves the order of rows at one time open; here they keep theirs.
use mathlib.Core.Path.{subst}
use portfolio_engine.Prelude.{
  Has, sym, ℕ, inl, inr, Bool-cases, List, [], ◌∷◌, All, leb, if◌then◌else◌,
}

module _ {R : Type 0} (time : R → ℕ) where
  unfoldable pub place : R → List R → List R
  place r [] = r ∷ []
  place r (q ∷ rows) = if leb (time r) (time q) then r ∷ q ∷ rows else q ∷ place r rows

  unfoldable pub order_by_time : List R → List R
  unfolding place
  order_by_time [] = []
  order_by_time (r ∷ rows) = place r (order_by_time rows)

  pub place-All : (P : R → Type 0) (r : R) (rows : List R) → P r → All P rows → All P (place r rows)
  unfolding place
  place-All P r [] p h = (p, tt)
  place-All P r (q ∷ rows) p h = elim (Bool-cases (leb (time r) (time q))) [
    | inl e ↦ rw e (p, h)
    | inr e ↦ rw e (h.0, place-All P r rows p h.1)
  ]

  pub order_by_time-All : (P : R → Type 0) (rows : List R) → All P rows → All P (order_by_time rows)
  unfolding order_by_time
  order_by_time-All P [] h = tt
  order_by_time-All P (r ∷ rows) h =
      place-All P r (order_by_time rows) h.0 (order_by_time-All P rows h.1)

  unfoldable pub place_latest : R → List R → List R
  place_latest r [] = r ∷ []
  place_latest r (q ∷ rows) =
      if leb (time q) (time r) then r ∷ q ∷ rows else q ∷ place_latest r rows

  -- `ORDER BY time DESC`
  unfoldable pub latest_first : List R → List R
  unfolding place_latest
  latest_first [] = []
  latest_first (r ∷ rows) = place_latest r (latest_first rows)

Has-place :
    {R : Type 0} (time : R → ℕ) (r q : R) (rows : List R)
    → Has q (place time r rows)
    → Has q (r ∷ rows)
unfolding place
Has-place time r q [] m = m
Has-place time r q (x ∷ rows) m = elim (Bool-cases (leb (time r) (time x))) [
  | inl e ↦
      subst (λ b. Has q (if b then r ∷ x ∷ rows else x ∷ place time r rows) → Has q (r ∷ x ∷ rows))
        (sym e) (λ k. k) m
  | inr e ↦
      subst (λ b. Has q (if b then r ∷ x ∷ rows else x ∷ place time r rows) → Has q (r ∷ x ∷ rows))
        (sym e)
        (λ k. elim k [
          | inl h ↦ inr (inl h)
          | inr h ↦ elim (Has-place time r q rows h) [ inl a ↦ inl a | inr b ↦ inr (inr b) ]
        ])
        m
]

pub Has-order_by_time :
    {R : Type 0} (time : R → ℕ) (q : R) (rows : List R)
    → Has q (order_by_time time rows)
    → Has q rows
unfolding order_by_time
Has-order_by_time time q [] m = m
Has-order_by_time time q (r ∷ rows) m = elim (Has-place time r q (order_by_time time rows) m) [
  | inl h ↦ inl h
  | inr h ↦ inr (Has-order_by_time time q rows h)
]
