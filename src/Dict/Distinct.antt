-- ===== src/Dict/Distinct.antt =====
-- Lists of texts without repetitions, such as the keys of a dictionary.
use mathlib.Core.Path.{subst}
use portfolio_engine.Prelude.{
  suc, ◌≤◌, ◌≡◌, refl, ap, ◌∙◌, inl, inr, String, true, false, ◌||◌, Bool-cases, Option, none, some,
  List, [], ◌∷◌, length, All, All-imp, Has, IsNodup, length-le_of_Has, arith, str_eq, eq_iff,
}
use portfolio_engine.Dict.Defs.{Dict, contains, lookup, insert, keys, update}
use portfolio_engine.Dict.Laws.{contains-keys-insert, lookup-insert, lookup-none_of_contains}

-- No text is listed twice.
abbrev pub IsDistinct : List String → Type 0
IsDistinct [] = Unit
IsDistinct (s ∷ xs) = All (λ t. str_eq s t ≡ false) xs × IsDistinct xs

-- Every text of the first list is in the second.
abbrev pub IsWithin : List String → List String → Type 0
IsWithin xs ys = All (λ x. contains x ys ≡ true) xs

pub All-contains :
    (P : String → Type 0) (c : String) (xs : List String) → All P xs → contains c xs ≡ true → P c
unfolding contains
All-contains P c [] h k = absurd (ground arith)
All-contains P c (x ∷ xs) h k = elim (Bool-cases (str_eq x c)) [
  | inl same ↦ subst P ((eq_iff x c).0 same) h.0
  | inr other ↦ All-contains P c xs h.1 (ground arith)
]

IsWithin-cons : (y : String) (xs ys : List String) → IsWithin xs ys → IsWithin xs (y ∷ ys)
unfolding contains
IsWithin-cons y [] ys h = tt
IsWithin-cons y (x ∷ xs) ys h = (ground (arith, h.0), IsWithin-cons y xs ys h.1)

pub IsWithin-refl : (xs : List String) → IsWithin xs xs
unfolding contains
IsWithin-refl [] = tt
IsWithin-refl (x ∷ xs) = (ground (arith, eq_iff x x), IsWithin-cons x xs xs (IsWithin-refl xs))

pub others_of_absent :
    (s : String) (xs : List String) → contains s xs ≡ false → All (λ t. str_eq s t ≡ false) xs
unfolding contains
others_of_absent s [] h = tt
others_of_absent s (x ∷ xs) h =
    (ground (arith, eq_iff x s, eq_iff s x), others_of_absent s xs (ground arith))

absent_of_others :
    (s : String) (xs : List String) → All (λ t. str_eq s t ≡ false) xs → contains s xs ≡ false
unfolding contains
absent_of_others s [] h = refl
absent_of_others s (x ∷ xs) h =
    ground (arith, eq_iff x s, eq_iff s x, h.0, absent_of_others s xs h.1)

contains-Has : (s : String) (ys : List String) → contains s ys ≡ true → Has s ys
unfolding contains
contains-Has s [] h = absurd (ground arith)
contains-Has s (y ∷ ys) h = elim (Bool-cases (str_eq y s)) [
  | inl same ↦ inl ((eq_iff y s).0 same)
  | inr other ↦ inr (contains-Has s ys (ground arith))
]

IsDistinct-IsNodup : (xs : List String) → IsDistinct xs → IsNodup xs
IsDistinct-IsNodup [] h = tt
IsDistinct-IsNodup (x ∷ xs) h = (
  All-imp xs (λ y e same. absurd (ground (arith, e, (eq_iff x y).1 same))) h.0,
  IsDistinct-IsNodup xs h.1,
)

pub length_within : (xs ys : List String) → IsDistinct xs → IsWithin xs ys → length xs ≤ length ys
length_within xs ys d h =
    length-le_of_Has xs ys (IsDistinct-IsNodup xs d) (All-imp xs (λ x k. contains-Has x ys k) h)

module _ {V : Type 0} where
  -- None of the texts is a key.
  abbrev pub AreNew : List String → Dict V → Type 0
  AreNew xs d = All (λ s. contains s (keys d) ≡ false) xs

  pub AreNew-insert :
      (s : String) (v : V) (xs : List String) (d : Dict V)
      → All (λ t. str_eq s t ≡ false) xs
      → AreNew xs d
      → AreNew xs (insert s v d)
  AreNew-insert s v [] d h n = tt
  AreNew-insert s v (t ∷ xs) d h n =
      (ground (arith, contains-keys-insert s t v d, h.0, n.0), AreNew-insert s v xs d h.1 n.1)

  pub length-insert :
      (s : String) (v : V) (d : Dict V)
      → contains s (keys d) ≡ false
      → length (insert s v d) ≡ suc (length d)
  unfolding contains keys insert
  length-insert s v [] h = refl
  length-insert s v ((k, w) ∷ d) h = ground (arith, length-insert s v d)

  length-keys : (d : Dict V) → length (keys d) ≡ length d
  unfolding keys
  length-keys [] = refl
  length-keys ((k, v) ∷ d) = ap suc (length-keys d)

  keys-insert-All :
      (P : String → Type 0) (s : String) (v : V) (d : Dict V)
      → P s
      → All P (keys d)
      → All P (keys (insert s v d))
  unfolding keys insert
  keys-insert-All P s v [] p h = (p, tt)
  keys-insert-All P s v ((k, w) ∷ d) p h = elim (Bool-cases (str_eq k s)) [
    | inl e ↦ rw e h
    | inr e ↦ rw e (h.0, keys-insert-All P s v d p h.1)
  ]

  insert-IsDistinct :
      (s : String) (v : V) (d : Dict V) → IsDistinct (keys d) → IsDistinct (keys (insert s v d))
  unfolding keys insert
  insert-IsDistinct s v [] h = (tt, tt)
  insert-IsDistinct s v ((k, w) ∷ d) h = elim (Bool-cases (str_eq k s)) [
    | inl e ↦ rw e h
    | inr e ↦
        rw e (keys-insert-All (λ t. str_eq k t ≡ false) s v d e h.0, insert-IsDistinct s v d h.1)
  ]

  pub update-IsDistinct : (d e : Dict V) → IsDistinct (keys d) → IsDistinct (keys (update d e))
  unfolding update
  update-IsDistinct d [] h = h
  update-IsDistinct d ((k, v) ∷ e) h =
      update-IsDistinct (insert k v d) e (insert-IsDistinct k v d h)

  pub keys-update-All :
      (P : String → Type 0) (d e : Dict V)
      → All P (keys d)
      → All P (keys e)
      → All P (keys (update d e))
  unfolding keys update
  keys-update-All P d [] h g = h
  keys-update-All P d ((k, v) ∷ e) h g =
      keys-update-All P (insert k v d) e (keys-insert-All P k v d g.0 h) g.1

  pub contains-keys-update :
      (s : String) (d e : Dict V)
      → contains s (keys (update d e)) ≡ (contains s (keys d) || contains s (keys e))
  unfolding contains keys update
  contains-keys-update s d [] = ground arith
  contains-keys-update s d ((k, v) ∷ e) =
      ground (arith, contains-keys-update s (insert k v d) e, contains-keys-insert k s v d)

  -- The newer value, where there is one.
  abbrev pub newer : Option V → Option V → Option V
  newer none old = old
  newer (some v) old = some v

  -- After an update by a dictionary the newer value counts.
  pub lookup-update :
      (s : String) (d e : Dict V)
      → IsDistinct (keys e)
      → lookup s (update d e) ≡ newer (lookup s e) (lookup s d)
  unfolding keys update lookup
  lookup-update s d [] h = refl
  lookup-update s d ((k, v) ∷ e) h = elim (Bool-cases (str_eq k s)) [
    | inl same ↦
        let gone : lookup s e ≡ none = lookup-none_of_contains s e (
          absent_of_others s (keys e)
            (subst (λ x. All (λ t. str_eq x t ≡ false) (keys e)) ((eq_iff k s).0 same) h.0)) in
        lookup-update s (insert k v d) e h.1 ∙ rw (gone, same, lookup-insert k s v d, same) refl
    | inr other ↦
        lookup-update s (insert k v d) e h.1 ∙ rw (other, lookup-insert k s v d, other) refl
  ]

  -- A key has a value, and what has a value is a key.
  contains-keys :
      (s : String) (d : Dict V) (v : V) → lookup s d ≡ some v → contains s (keys d) ≡ true
  unfolding contains keys lookup
  contains-keys s [] v e = absurd (ground arith)
  contains-keys s ((k, w) ∷ d) v e = ground (arith, contains-keys s d v)
