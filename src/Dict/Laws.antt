-- ===== src/Dict/Laws.antt =====
-- What a look-up finds after an insertion, an update or a comprehension.
use mathlib.Core.Option
use mathlib.Core.Option.{some-injective}
use mathlib.Core.Path.{subst}
use portfolio_engine.Prelude.{
  String, ◌≡◌, refl, sym, ap, true, false, none, some, List, [], ◌∷◌, ◌||◌, arith, str_eq, eq_iff,
  if◌then◌else◌, Bool-cases, inl, inr, All,
}
use portfolio_engine.Dict.Defs.{
  Dict, contains, lookup, get, insert, keys, update, map_values, from_keys,
}

pub str_eq_refl : (s : String) → str_eq s s ≡ true
str_eq_refl s = (eq_iff s s).1 refl

module _ {ℓ} {V : Type ℓ} where
  pub lookup-insert :
      (k j : String) (v : V) (d : Dict V)
      → lookup j (insert k v d) ≡ (if str_eq k j then some v else lookup j d)
  unfolding lookup insert
  lookup-insert k j v [] = refl
  lookup-insert k j v ((i, w) ∷ d) =
      ground (arith, eq_iff k j, eq_iff i k, eq_iff i j, lookup-insert k j v d)

  pub lookup-insert_self : (k : String) (v : V) (d : Dict V) → lookup k (insert k v d) ≡ some v
  lookup-insert_self k v d = rw (lookup-insert k k v d, str_eq_refl k)

  pub contains-keys-insert :
      (k j : String) (v : V) (d : Dict V)
      → contains j (keys (insert k v d)) ≡ (str_eq k j || contains j (keys d))
  unfolding contains keys insert
  contains-keys-insert k j v [] = refl
  contains-keys-insert k j v ((i, w) ∷ d) =
      ground (arith, eq_iff k j, eq_iff i k, eq_iff i j, contains-keys-insert k j v d)

  pub insert-lookup : (k : String) (v : V) (d : Dict V) → lookup k d ≡ some v → insert k v d ≡ d
  unfolding insert lookup
  insert-lookup k v [] e = absurd (ground arith)
  insert-lookup k v ((i, w) ∷ d) e = elim (Bool-cases (str_eq i k)) [
    | inl same ↦ rw same (ap (λ x. (i, x) ∷ d) (sym (some-injective _ _ (rw same at e))))
    | inr other ↦ rw other (ap (λ l. (i, w) ∷ l) (insert-lookup k v d (rw other at e)))
  ]

  get-eq_of_lookup : (v w : V) (k : String) (d : Dict V) → lookup k d ≡ some w → get v k d ≡ w
  unfolding get
  get-eq_of_lookup v w k d e = ground arith

  pub get-insert :
      (v : V) (k j : String) (w : V) (d : Dict V)
      → get v j (insert k w d) ≡ (if str_eq k j then w else get v j d)
  unfolding get
  get-insert v k j w d = elim (Bool-cases (str_eq k j)) [
    | inl e ↦ rw (lookup-insert k j w d, e, get)
    | inr e ↦ rw (lookup-insert k j w d, e, get)
  ]

  pub insert-All :
      (P : V → Type 0) (k : String) (v : V) (d : Dict V)
      → P v
      → All (λ (e : String × V). P e.1) d
      → All (λ (e : String × V). P e.1) (insert k v d)
  unfolding insert
  insert-All P k v [] p h = (p, tt)
  insert-All P k v ((i, w) ∷ d) p h = elim (Bool-cases (str_eq i k)) [
    | inl e ↦ rw e (p, h.1)
    | inr e ↦ rw e (h.0, insert-All P k v d p h.1)
  ]

  pub update-All :
      (P : V → Type 0) (d e : Dict V)
      → All (λ (x : String × V). P x.1) d
      → All (λ (x : String × V). P x.1) e
      → All (λ (x : String × V). P x.1) (update d e)
  unfolding update
  update-All P d [] h g = h
  update-All P d ((k, v) ∷ e) h g = update-All P (insert k v d) e (insert-All P k v d g.0 h) g.1

  pub lookup-All :
      (P : V → Type 0) (k : String) (v : V) (d : Dict V)
      → All (λ (e : String × V). P e.1) d
      → lookup k d ≡ some v
      → P v
  unfolding lookup
  lookup-All P k v [] h e = absurd (ground arith)
  lookup-All P k v ((i, w) ∷ d) h e = elim (Bool-cases (str_eq i k)) [
    | inl same ↦ subst P (some-injective _ _ (rw same at e)) h.0
    | inr other ↦ lookup-All P k v d h.1 (rw other at e)
  ]

  pub lookup-none_of_contains :
      (k : String) (d : Dict V) → contains k (keys d) ≡ false → lookup k d ≡ none
  unfolding contains keys lookup
  lookup-none_of_contains k [] h = refl
  lookup-none_of_contains k ((i, w) ∷ d) h = ground (arith, lookup-none_of_contains k d)

pub lookup-map_values {ℓ κ} :
    {V : Type ℓ} {W : Type κ} (g : V → W) (k : String) (d : Dict V)
    → lookup k (map_values g d) ≡ Option.map g (lookup k d)
unfolding lookup map_values
lookup-map_values g k [] = refl
lookup-map_values g k ((j, v) ∷ d) = elim (Bool-cases (str_eq j k)) [
  | inl e ↦ rw e
  | inr e ↦ rw e (lookup-map_values g k d)
]

-- A comprehension over a list of keys has an entry for each of them, and keeps the others.
pub lookup-from_keys {ℓ} :
    {V : Type ℓ} (g : String → V) (k : String) (ks : List String) (d : Dict V)
    → lookup k (from_keys g ks d) ≡ (if contains k ks then some (g k) else lookup k d)
unfolding from_keys contains
lookup-from_keys g k [] d = refl
lookup-from_keys g k (j ∷ ks) d = elim (Bool-cases (str_eq j k)) [
  | inl e ↦ ground (
    arith,
    lookup-from_keys g k ks (insert j (g j) d),
    lookup-insert j k (g j) d,
    ap g ((eq_iff j k).0 e),
  )
  | inr e ↦ rw (lookup-from_keys g k ks (insert j (g j) d), lookup-insert j k (g j) d, e)
]
