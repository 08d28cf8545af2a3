-- ===== src/Forecasting/Garch/Total.antt =====
-- When a fit raises, and that what it leaves can predict.
use mathlib.Core.Path.{subst}
use mathlib.Core.Option.{some-injective}
use portfolio_engine.Prelude.{
  ℕ, ◌≤◌, ◌<◌, ◌≡◌, refl, sym, ◌⊎◌, ◌↔◌, inl, inr, Bool, Bool-cases, Option, none, some, List, [],
  ◌∷◌, map, length, arith, if-case, >>=-eq-some,
}
use portfolio_engine.Database.{where_true}
use portfolio_engine.Float.{Float, IsIeee, ◌*◌, sqrt, lt, is_nan, is_finite, zero, one, max}
use portfolio_engine.Portfolio.Allocator.NoShort.{IsNotNegative}
use portfolio_engine.Forecasting.Garch.{
  Stats, Arch, Model, fitted_or_std, attempt, is_flat, scale_of, fit_centred, fit_clean, fit,
  predict_from, predict, vol_of,
}

module _ {F : Type 0} ⦃f : Float F⦄ (stats : Stats F) (arch : Arch F) where
  length-where_true : (p : F → Bool) (xs : List F) → length (where_true p xs) ≤ length xs
  length-where_true p [] = omega arith
  length-where_true p (x ∷ xs) = ground (arith, length-where_true p xs)

  short_of : (rs : List F) → fit stats arch (some rs) ≡ none → length (where_true is_finite rs) < 20
  unfolding fit
  short_of rs e = ground (arith, length-where_true is_finite rs)

  -- A fit raises exactly when there are no returns, or fewer than 20 of them are finite.
  fit_fails_iff :
      (returns : Option (List F))
      → (fit stats arch returns ≡ none) ↔ (
          (returns ≡ none)
          ⊎ ((rs : List F) × (returns ≡ some rs) × (length (where_true is_finite rs) < 20)))
  unfolding fit
  fit_fails_iff none = (λ _. inl refl, λ _. refl)
  fit_fails_iff (some rs) =
      let fewer = length-where_true is_finite rs in
      (
        λ e. inr (rs, refl, short_of rs e),
        λ h. elim h [
          | inl e ↦ absurd (ground arith)
          | inr (r, e, few) ↦
              let same : rs ≡ r = some-injective _ _ e in
              let less : length (where_true is_finite rs) < 20 =
                subst (λ (x : List F). length (where_true is_finite x) < 20) (sym same) few in
              ground arith
        ],
      )

  -- What a model that has been fitted can predict.
  abbrev Predicts : Model stats arch → ℕ → Type 0
  Predicts m steps =
      ((x : arch.Fit) → m.fitted ≡ some x → (v : F) × (arch.forecast x steps ≡ some v))
      → (v : F) × (predict stats arch steps m ≡ some v) × IsNotNegative v

  module _ (laws : IsIeee F) where
    open laws use {
      not_lt_of_le, le_of_lt, lit_nonneg, sqrt_nonneg, sqrt-nan, lt_numbers, le_of_not_lt,
      lit_finite, finite_number,
    }

    zero-IsNotNegative : IsNotNegative (zero {F = F})
    zero-IsNotNegative = not_lt_of_le zero zero (lit_nonneg 0 0)

    max-IsNotNegative : (x : F) → IsNotNegative (max x zero)
    max-IsNotNegative x =
        if-case {A = F} IsNotNegative (lt x zero) (λ _. zero-IsNotNegative) (λ e. e)

    sqrt-IsNotNegative : (x : F) → IsNotNegative x → IsNotNegative (sqrt x)
    sqrt-IsNotNegative x h = elim (Bool-cases (is_nan x)) [
      | inl n ↦ elim (Bool-cases (lt (sqrt x) zero)) [
        | inl e ↦ absurd (ground (arith, lt_numbers (sqrt x) zero e, sqrt-nan x n))
        | inr e ↦ e
      ]
      | inr n ↦ not_lt_of_le zero (sqrt x) (
          sqrt_nonneg x
            (le_of_not_lt x zero n (finite_number zero (lit_finite 0 0 (omega arith))) h))
    ]

    predict-fitted :
        (x : arch.Fit) (scale : F) (fallback_vol : Option F) (steps : ℕ)
        → Predicts (record { fitted = some x; scale = scale; fallback_vol = fallback_vol }) steps
    unfolding predict
    predict-fitted x scale fallback_vol steps h =
        let (v, e) = h x refl in
        (vol_of stats arch scale v, rw e refl, sqrt-IsNotNegative _ (max-IsNotNegative _))

    predict-fallback :
        (scale fallback_vol : F) (steps : ℕ)
        → Predicts (record { fitted = none; scale = scale; fallback_vol = some fallback_vol }) steps
    unfolding predict
    predict-fallback scale fallback_vol steps h =
        (max fallback_vol zero, refl, max-IsNotNegative fallback_vol)

    after_attempts :
        (scale sample_std : F) (o : Option arch.Fit) (steps : ℕ)
        → Predicts (fitted_or_std stats arch scale sample_std o) steps
    after_attempts scale sample_std none steps = predict-fallback scale sample_std steps
    after_attempts scale sample_std (some x) steps = predict-fitted x scale none steps

    -- No prediction is below 0, from whatever model.
    pub predict-IsNotNegative :
        (steps : ℕ) (m : Model stats arch) (v : F)
        → predict stats arch steps m ≡ some v
        → IsNotNegative v
    unfolding predict
    predict-IsNotNegative steps m v e = from m.fitted m.fallback_vol e
      where
        from :
            (o : Option arch.Fit) (fallback_vol : Option F)
            → predict_from stats arch o m.scale fallback_vol steps ≡ some v
            → IsNotNegative v
        from none none e = absurd (ground arith)
        from none (some w) e = subst IsNotNegative (some-injective _ _ e) (max-IsNotNegative w)
        from (some x) w e =
            let (raw, _, same) =
              >>=-eq-some (arch.forecast x steps) (λ r. some (vol_of stats arch m.scale r)) e in
            subst IsNotNegative (some-injective _ _ same)
              (sqrt-IsNotNegative _ (max-IsNotNegative _))

    fit_centred-Predicts :
        (clean : List F) (sample_std : F) (steps : ℕ)
        → Predicts (fit_centred stats arch clean sample_std) steps
    unfolding fit_centred
    fit_centred-Predicts clean sample_std steps =
        let scale = scale_of sample_std in
        if-case {A = Model stats arch} (λ m. Predicts m steps) (is_flat sample_std)
          (λ _. predict-fallback one zero steps)
          (λ _.
            after_attempts scale sample_std
              (attempt stats arch ("normal" ∷ "t" ∷ []) (map (λ x. x * scale) clean)) steps)

    fit_clean-Predicts :
        (finite : List F) (steps : ℕ) → Predicts (fit_clean stats arch finite) steps
    unfolding fit_clean
    fit_clean-Predicts finite steps = fit_centred-Predicts _ _ steps

    fit-some :
        (rs : List F) (m : Model stats arch)
        → fit stats arch (some rs) ≡ some m
        → m ≡ fit_clean stats arch (where_true is_finite rs)
    unfolding fit
    fit-some rs m e = ground arith

    -- Under the laws of IEEE 754: once a fit has returned, converged or not, a prediction succeeds
    -- unless arch's forecast from the fitted model raises, and it is not below 0.
    pub fit_then_predict :
        (returns : Option (List F)) (m : Model stats arch) (steps : ℕ)
        → fit stats arch returns ≡ some m
        → ((x : arch.Fit) → m.fitted ≡ some x → (v : F) × (arch.forecast x steps ≡ some v))
        → (v : F) × (predict stats arch steps m ≡ some v) × IsNotNegative v
    unfolding fit
    fit_then_predict none m steps e h = absurd (ground arith)
    fit_then_predict (some rs) m steps e h =
        subst (λ x. Predicts x steps) (sym (fit-some rs m e))
          (fit_clean-Predicts (where_true is_finite rs) steps) h
