-- ===== src/Dict/Defs.antt =====
-- The operations on a dictionary that the services use.
use portfolio_engine.Prelude.{
  String, Bool, true, false, Option, none, some, List, [], ◌∷◌, ◌||◌, str_eq, if◌then◌else◌,
}

abbrev pub Dict {ℓ} : Type ℓ → Type ℓ
Dict V = List (String × V)

-- `s in xs`, for a list of texts.
unfoldable pub contains : String → List String → Bool
contains s [] = false
contains s (x ∷ xs) = str_eq x s || contains s xs

module _ {ℓ} {V : Type ℓ} where
  -- `d.get(k)`
  unfoldable pub lookup : String → Dict V → Option V
  lookup k [] = none
  lookup k ((j, v) ∷ d) = if str_eq j k then some v else lookup k d

  -- `d.get(k, default)`
  unfoldable pub get : V → String → Dict V → V
  unfolding lookup
  get v k d = elim (lookup k d) [ none ↦ v | some w ↦ w ]

  -- `d[k] = v`
  unfoldable pub insert : String → V → Dict V → Dict V
  insert k v [] = (k, v) ∷ []
  insert k v ((j, w) ∷ d) = if str_eq j k then (j, v) ∷ d else (j, w) ∷ insert k v d

  unfoldable pub keys : Dict V → List String
  keys [] = []
  keys ((k, _) ∷ d) = k ∷ keys d

  -- `bool(d)`
  abbrev pub is_true : Dict V → Bool
  is_true [] = false
  is_true (_ ∷ _) = true

  -- `d.update(e)`
  unfoldable pub update : Dict V → Dict V → Dict V
  unfolding insert
  update d [] = d
  update d ((k, v) ∷ e) = update (insert k v d) e

  -- `d or e`
  abbrev pub or_else : Dict V → Dict V → Dict V
  or_else [] e = e
  or_else (x ∷ d) e = x ∷ d

-- `{k: g(v) for k, v in d.items()}`
unfoldable pub map_values {ℓ κ} : {V : Type ℓ} {W : Type κ} → (V → W) → Dict V → Dict W
map_values g [] = []
map_values g ((k, v) ∷ d) = (k, g v) ∷ map_values g d

-- `{k: g(k) for k in ks}`
unfoldable pub from_keys {ℓ} : {V : Type ℓ} → (String → V) → List String → Dict V → Dict V
unfolding insert
from_keys g [] d = d
from_keys g (k ∷ ks) d = from_keys g ks (insert k (g k) d)
