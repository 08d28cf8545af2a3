-- ===== src/Forecasting/Training/Retry.antt =====
-- When the loop of the training retries, and which models a cycle leaves.
use portfolio_engine.Prelude.{
  ◌≤◌, ◌<◌, ◌≡◌, refl, ◌⊎◌, ◌↔◌, inl, inr, String, true, ◌||◌, Bool-cases, Option, none, some, List,
  [], ◌∷◌, length, ltb, All, All-imp, arith, if◌then◌else◌,
}
use portfolio_engine.Dict.{
  Dict, contains, keys, update, IsDistinct, IsWithin, contains-keys-update, length_within,
  IsWithin-refl, others_of_absent, update-IsDistinct, keys-update-All,
}
use portfolio_engine.Portfolio.Ready.{missing_of, is_empty}
use portfolio_engine.Portfolio.Ready.Counted.{missing_of-empty}
use portfolio_engine.Forecasting.Training.{Reason, missing_reason, models_after, retry_of}

missing_reason-none : (xs : List String) → (missing_reason xs ≡ none) ↔ (is_empty xs ≡ true)
missing_reason-none [] = (λ _. refl, λ _. refl)
missing_reason-none (x ∷ xs) = (λ e. absurd (ground arith), λ e. absurd (ground arith))

raised_unless :
    (symbols loaded : List String)
    → 0 < length symbols
    → ((if is_empty loaded || ltb (length loaded) (length symbols)
          then some Reason.raised
          else none)
        ≡ none)
      ↔ (length symbols ≤ length loaded)
raised_unless symbols [] h = (λ e. absurd (ground arith), λ e. absurd (omega arith))
raised_unless symbols (x ∷ loaded) h = (λ e. ground arith, λ e. ground arith)

nothing_has :
    (M : Type 0) (symbols : List String)
    → 0 < length symbols
    → ¬ (All (λ s. contains s (keys {V = M} []) ≡ true) symbols)
unfolding contains keys
nothing_has M [] pos h = omega arith
nothing_has M (s ∷ symbols) pos h = ground (arith, h.0)

module _ {M : Type 0} where
  -- A dictionary of models of the given symbols.
  abbrev pub IsOf : List String → Dict M → Type 0
  IsOf symbols d = IsDistinct (keys d) × IsWithin (keys d) symbols

  -- What a cycle brings, if anything, is such a dictionary.
  abbrev pub BringsOf : List String → Option (Dict M) → Type 0
  BringsOf symbols none = Unit {0}
  BringsOf symbols (some d) = IsOf symbols d

  -- Every symbol has a model.
  abbrev pub HasAll : List String → Dict M → Type 0
  HasAll symbols d = All (λ s. contains s (keys d) ≡ true) symbols

  missing-none :
      (symbols : List String) (d : Dict M)
      → (missing_reason (missing_of (keys d) symbols) ≡ none) ↔ HasAll symbols d
  missing-none symbols d =
      let (a, b) = missing_reason-none (missing_of (keys d) symbols) in
      let (c, e) = missing_of-empty (keys d) symbols in (λ h. c (a h), λ h. b (e h))

  -- With a model for each of as many symbols, none is missing.
  full_has :
      (symbols : List String) (d : Dict M)
      → IsOf symbols d
      → length symbols ≤ length (keys d)
      → (s : String) → contains s symbols ≡ true
      → contains s (keys d) ≡ true
  full_has symbols d (distinct, within) le s h = elim (Bool-cases (contains s (keys d))) [
    | inl e ↦ e
    | inr e ↦
        let more =
          length_within (s ∷ keys d) symbols (others_of_absent s (keys d) e, distinct)
            (h, within) in
        absurd (omega arith)
  ]

  -- A cycle is followed by the long sleep exactly when every symbol then has a model.
  pub retry_of-none :
      (symbols : List String) (models : Dict M) (o : Option (Dict M))
      → 0 < length symbols
      → IsDistinct symbols
      → IsOf symbols models
      → BringsOf symbols o
      → (retry_of symbols models o ≡ none) ↔ HasAll symbols (models_after o models)
  unfolding retry_of
  retry_of-none symbols models none pos d h b =
      let (to, back) = raised_unless symbols (keys models) pos in
      (
        λ e. All-imp symbols (λ s k. full_has symbols models h (to e) s k) (IsWithin-refl symbols),
        λ k. back (length_within symbols (keys models) d k),
      )
  retry_of-none symbols [] (some []) pos d h b =
      (λ e. absurd (ground arith), λ k. absurd (nothing_has M symbols pos (unfold update in k)))
  retry_of-none symbols (m ∷ models) (some []) pos d h b =
      unfold update in missing-none symbols (m ∷ models)
  retry_of-none symbols models (some (m ∷ new)) pos d h b =
      missing-none symbols (update models (m ∷ new))

  -- The cycle brings a model of the symbol.
  abbrev pub Brings : String → Option (Dict M) → Type 0
  Brings s none = ⊥
  Brings s (some d) = contains s (keys d) ≡ true

  pub models_after-IsOf :
      (symbols : List String) (models : Dict M) (o : Option (Dict M))
      → IsOf symbols models
      → BringsOf symbols o
      → IsOf symbols (models_after o models)
  models_after-IsOf symbols models none h b = h
  models_after-IsOf symbols models (some d) h b = (
    update-IsDistinct models d h.0,
    keys-update-All (λ s. contains s symbols ≡ true) models d h.1 b.1,
  )

  pub contains-models_after :
      (s : String) (models : Dict M) (o : Option (Dict M))
      → (contains s (keys (models_after o models)) ≡ true)
        ↔ ((contains s (keys models) ≡ true) ⊎ Brings s o)
  contains-models_after s models none = (λ e. inl e, λ h. elim h [ inl e ↦ e | inr b ↦ absurd b ])
  contains-models_after s models (some d) =
      let same = contains-keys-update s models d in
      (λ e. ground (arith, same), λ h. ground (arith, same))
