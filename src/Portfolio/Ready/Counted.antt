-- ===== src/Portfolio/Ready/Counted.antt =====
-- What the waits count, and when it is enough.

use portfolio_engine.Prelude.{
  ℕ, ◌≤◌, ◌≡◌, refl, sym, ap, ◌∙◌, ◌↔◌, inl, inr, String, Bool, true, ◌&&◌, ◌||◌, Bool-cases, List,
  [], ◌∷◌, map, All, Has, leb, leb→le, le→leb, str_eq, eq_iff, arith,
}
use portfolio_engine.Dict.{Dict, contains, keys, insert, from_keys, contains-keys-insert}
use portfolio_engine.Database.{where_true}
use portfolio_engine.Portfolio.Ready.{
  missing_of, ready_of, is_empty, number_of, counts_of, is_ready,
}

pub missing_of-empty :
    (ready expected : List String)
    → (is_empty (missing_of ready expected) ≡ true) ↔ All (λ s. contains s ready ≡ true) expected
unfolding missing_of
missing_of-empty ready [] = ground arith
missing_of-empty ready (s ∷ expected) = ground (arith, missing_of-empty ready expected)

-- Every count is what `g` says.
abbrev Counts : (String → ℕ) → Dict ℕ → Type 0
Counts g d = All (λ e. e.1 ≡ g e.0) d

insert-Counts :
    (g : String → ℕ) (k : String) (d : Dict ℕ) → Counts g d → Counts g (insert k (g k) d)
unfolding insert
insert-Counts g k [] h = (refl, tt)
insert-Counts g k ((j, v) ∷ d) h = elim (Bool-cases (str_eq j k)) [
  | inl e ↦ rw e (ap g (sym ((eq_iff j k).0 e)), h.1)
  | inr e ↦ rw e (h.0, insert-Counts g k d h.1)
]

from_keys-Counts :
    (g : String → ℕ) (ks : List String) (d : Dict ℕ) → Counts g d → Counts g (from_keys g ks d)
unfolding from_keys
from_keys-Counts g [] d h = h
from_keys-Counts g (k ∷ ks) d h = from_keys-Counts g ks (insert k (g k) d) (insert-Counts g k d h)

contains-keys-from_keys :
    (g : String → ℕ) (s : String) (ks : List String) (d : Dict ℕ)
    → contains s (keys (from_keys g ks d)) ≡ (contains s ks || contains s (keys d))
unfolding from_keys contains
contains-keys-from_keys g s [] d = refl
contains-keys-from_keys g s (k ∷ ks) d =
    ground
      (arith, contains-keys-from_keys g s ks (insert k (g k) d), contains-keys-insert k s (g k) d)

contains-ready_of :
    (g : String → ℕ) (m : ℕ) (s : String) (d : Dict ℕ)
    → Counts g d
    → contains s (ready_of m d) ≡ (contains s (keys d) && leb m (g s))
unfolding ready_of contains keys
contains-ready_of g m s [] h = refl
contains-ready_of g m s ((j, c) ∷ d) h = elim (Bool-cases (str_eq j s)) [
  | inl e ↦
      let same : c ≡ g s = h.0 ∙ ap g ((eq_iff j s).0 e) in
      ground (arith, contains-ready_of g m s d h.1)
  | inr e ↦ ground (arith, contains-ready_of g m s d h.1)
]

module _ {R : Type 0} (symbol_of : R → String) where
  contains-symbols :
      (s : String) (rows : List R)
      → contains s (map symbol_of rows) ≡ leb 1 (number_of symbol_of s rows)
  unfolding contains number_of
  contains-symbols s [] = refl
  contains-symbols s (r ∷ rows) = ground (arith, contains-symbols s rows)

  number_of-wanted :
      (p : R → Bool) (symbols : List String) (s : String) (rows : List R)
      → contains s symbols ≡ true
      → number_of symbol_of s (where_true (λ r. contains (symbol_of r) symbols && p r) rows)
        ≡ number_of symbol_of s (where_true p rows)
  unfolding number_of
  number_of-wanted p symbols s [] h = refl
  number_of-wanted p symbols s (r ∷ rows) h = elim (Bool-cases (str_eq (symbol_of r) s)) [
    | inl e ↦
        let same : contains (symbol_of r) symbols ≡ true =
          ap (λ x. contains x symbols) ((eq_iff (symbol_of r) s).0 e) ∙ h in
        ground (arith, number_of-wanted p symbols s rows h)
    | inr e ↦ ground (arith, number_of-wanted p symbols s rows h)
  ]

  -- Every symbol has at least `m` of the rows that count.
  abbrev pub HasEnough : (R → Bool) → ℕ → List String → List R → Type 0
  HasEnough p m symbols rows = All (λ s. m ≤ number_of symbol_of s (where_true p rows)) symbols

  contains-ready :
      (p : R → Bool) (m : ℕ) (symbols : List String) (rows : List R) (s : String)
      → 1 ≤ m
      → contains s symbols ≡ true
      → contains s (ready_of m (counts_of symbol_of p symbols rows))
        ≡ leb m (number_of symbol_of s (where_true p rows))
  unfolding counts_of
  contains-ready p m symbols rows s pos h =
      let found = where_true (λ r. contains (symbol_of r) symbols && p r) rows in
      let g : String → ℕ = λ x. number_of symbol_of x found in
      ground (
        arith,
        contains-ready_of g m s (from_keys g (map symbol_of found) [])
            (from_keys-Counts g (map symbol_of found) [] tt),
        contains-keys-from_keys g s (map symbol_of found) [],
        contains-symbols s found,
        number_of-wanted p symbols s rows h,
      )

  listed_enough :
      (p : R → Bool) (m : ℕ) (symbols : List String) (rows : List R) (part : List String)
      → 1 ≤ m
      → ((s : String) → Has s part → contains s symbols ≡ true)
      → All (λ s. contains s (ready_of m (counts_of symbol_of p symbols rows)) ≡ true) part
        ↔ HasEnough p m part rows
  listed_enough p m symbols rows [] pos h = (λ _. tt, λ _. tt)
  listed_enough p m symbols rows (s ∷ part) pos h =
      let (to, back) = listed_enough p m symbols rows part pos (λ x k. h x (inr k)) in
      let same = contains-ready p m symbols rows s pos (h s (inl refl)) in
      (λ k. (leb→le _ _ (sym same ∙ k.0), to k.1), λ k. (same ∙ le→leb _ _ k.0, back k.1))

contains-Has : (s : String) (symbols : List String) → Has s symbols → contains s symbols ≡ true
unfolding contains
contains-Has s [] h = elim h [ ]
contains-Has s (x ∷ symbols) (inl e) = ground (arith, eq_iff x s)
contains-Has s (x ∷ symbols) (inr h) = ground (arith, contains-Has s symbols h)

module _ {R : Type 0} (symbol_of : R → String) (p : R → Bool) (m : ℕ) (symbols : List String) where
  pub is_ready_iff :
      (rows : List R)
      → 1 ≤ m
      → (is_ready symbol_of p m symbols rows ≡ true) ↔ HasEnough symbol_of p m symbols rows
  unfolding is_ready
  is_ready_iff rows pos =
      let (a, b) = missing_of-empty (ready_of m (counts_of symbol_of p symbols rows)) symbols in
      let (to, back) =
        listed_enough symbol_of p m symbols rows symbols pos (λ s k. contains-Has s symbols k) in
      (λ e. to (a e), λ h. b (back h))
