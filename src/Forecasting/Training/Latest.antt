-- ===== src/Forecasting/Training/Latest.antt =====
-- The models that the loop of the training leaves, and how long it sleeps.
use portfolio_engine.Prelude.{
  ◌≡◌, refl, ap, ◌∙◌, ◌⊎◌, inl, inr, String, Option, Option-cases, none, some, List, [], ◌∷◌, ◌++◌,
  All, arith, if-case,
}
use portfolio_engine.Float.{Float, IsIeee, ◌≼◌, one, max, lt}
use portfolio_engine.Dict.{Dict, keys, lookup, newer, lookup-update, IsDistinct}
use portfolio_engine.Forecasting.Training.{
  Settings, Reason, Cycle, models_after, retry_of, sleep_of, training_loop,
}

module _ {M : Type 0} where
  -- The model of the symbol that a cycle brings.
  abbrev pub brought : String → Option (Dict M) → Option M
  brought symbol none = none
  brought symbol (some d) = lookup symbol d

  abbrev pub HasKeys : Option (Dict M) → Type 0
  HasKeys none = Unit {0}
  HasKeys (some d) = IsDistinct (keys d)

  lookup-models_after :
      (symbol : String) (o : Option (Dict M)) (models : Dict M)
      → HasKeys o
      → lookup symbol (models_after o models) ≡ newer (brought symbol o) (lookup symbol models)
  lookup-models_after symbol none models h = refl
  lookup-models_after symbol (some d) models h = lookup-update symbol models d h

module _ {F : Type 0} ⦃f : Float F⦄ {M : Type 0} (s : Settings) where
  -- No cycle brings a model of the symbol.
  abbrev pub BringNone : String → List (Cycle F M) → Type 0
  BringNone symbol cycles = All (λ (c : Cycle F M). brought symbol c.new_models ≡ none) cycles

  -- The model of the last cycle that brings one, or the old one.
  abbrev pub IsLatest : String → List (Cycle F M) → (old new : Option M) → Type 0
  IsLatest symbol cycles old new =
      (BringNone symbol cycles × (new ≡ old))
      ⊎ ((xs : List (Cycle F M)) × (c : Cycle F M) × (ys : List (Cycle F M)) × (cycles
            ≡ xs ++ c ∷ ys)
          × (v : M) × (brought symbol c.new_models ≡ some v)
          × BringNone symbol ys
          × (new ≡ some v))

  after_cycle :
      (symbol : String) (c : Cycle F M) (cycles : List (Cycle F M)) (old new : Option M)
      → IsLatest symbol cycles (newer (brought symbol c.new_models) old) new
      → IsLatest symbol (c ∷ cycles) old new
  after_cycle symbol c cycles old new (inr (xs, d, ys, e, v, b, n, same)) =
      inr (c ∷ xs, d, ys, ap (λ (r : List (Cycle F M)). c ∷ r) e, v, b, n, same)
  after_cycle symbol c cycles old new (inl (n, same)) =
      elim (Option-cases (brought symbol c.new_models)) [
        | inl e ↦ inl ((e, n), same ∙ ap (λ (o : Option M). newer o old) e)
        | inr (v, e) ↦
            inr ([], c, cycles, refl, v, e, n, same ∙ ap (λ (o : Option M). newer o old) e)
      ]

  -- If what a cycle brings has each symbol once: after any cycles, failed and empty ones among them,
  -- the model of a symbol is that of the last cycle that brought one, and where none did it is the
  -- one from before.
  pub training_loop-IsLatest :
      (symbol : String) (cycles : List (Cycle F M)) (models : Dict M)
      → All (λ (c : Cycle F M). HasKeys c.new_models) cycles
      → IsLatest symbol cycles
          (lookup symbol models)
          (lookup symbol (training_loop s cycles models).0)
  unfolding training_loop
  training_loop-IsLatest symbol [] models h = inl (tt, refl)
  training_loop-IsLatest symbol (c ∷ cycles) models h =
      let last = (training_loop s cycles (models_after c.new_models models)).0 in
      after_cycle symbol c cycles (lookup symbol models) (lookup symbol last) (
        rw (lookup-models_after symbol c.new_models models h.0) at
          (training_loop-IsLatest symbol cycles (models_after c.new_models models) h.1))

module _ {F : Type 0} ⦃f : Float F⦄ (s : Settings) (laws : IsIeee F) where
  max-one : (x : F) → one ≼ max one x
  max-one x =
      if-case {A = F} (λ y. one ≼ y) (lt one x) (laws.le_of_lt one x)
        (λ _. laws.le_refl one (laws.finite_number one (laws.lit_finite 1 0 (omega arith))))

  sleep_of_least : (r : Option Reason) (elapsed : F) → one ≼ sleep_of s r elapsed
  unfolding sleep_of
  sleep_of_least none elapsed = max-one _
  sleep_of_least (some Reason.missing_symbols) elapsed = max-one _
  sleep_of_least (some Reason.no_models_available) elapsed = max-one _
  sleep_of_least (some Reason.raised) elapsed = max-one _

  -- Under the laws of IEEE 754, every sleep of the loop is at least a second, whatever the cycles
  -- bring and however long they take, a time that is NaN included.
  training_sleeps :
      {M : Type 0} (cycles : List (Cycle F M)) (models : Dict M)
      → All (λ x. one ≼ x) (training_loop s cycles models).1
  unfolding training_loop
  training_sleeps [] models = tt
  training_sleeps (c ∷ cycles) models = (
    sleep_of_least (retry_of s.symbols models c.new_models) c.elapsed,
    training_sleeps cycles (models_after c.new_models models),
  )
