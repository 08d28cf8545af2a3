-- ===== src/Portfolio/Rebalance/Weights.antt =====
-- The weights of a rebalance are not short.
use mathlib.Core.Path.{subst}
use mathlib.Core.Option.{some-injective}
use portfolio_engine.Prelude.{
  ◌≡◌, refl, inl, inr, true, false, Bool-cases, Option, some, List, [], ◌∷◌, map, any, length, All,
  Has, arith, if◌then◌else◌, if-case, >>=-eq-some,
}
use portfolio_engine.Float.{Float, IsIeee, ◌≼◌, ◌+◌, ◌*◌, ◌/◌, lit, lt, le, is_nan, zero}
use portfolio_engine.Database.{All-Has}
use portfolio_engine.Portfolio.Numpy.{Numpy, IsNumpy}
use portfolio_engine.Portfolio.Allocator.{
  zip_with, equal_weights, inverse_vol_weights, optimize_sharpe_proxy,
}
use portfolio_engine.Portfolio.Allocator.NoShort.{
  InRange, InRange-of, nan-IsNotNegative, IsNotNegative, IsNotShort, equal_weights-IfAny,
  inverse_vol_weights-IfAny, optimize_sharpe_proxy-IsNotShort,
}
use portfolio_engine.Portfolio.Rebalance.{Config, is_unusable, choose_weights}

module _ {F : Type 0} ⦃f : Float F⦄ (np : Numpy F) (laws : IsIeee F) (np_laws : IsNumpy F np)
    (c : Config F) (cap_nonneg : zero ≼ c.weight_cap) where
  open laws use {
    add-nan, mul-nan, div-nan, add_nonneg, scale_nonneg, lit_finite, lit_pos, div_not_neg,
    zero_div_not_neg,
  }
  open np_laws use {array_sum_pos, array_sum_numbers}

  range : (x : F) → IsNotNegative x → InRange x
  range = InRange-of np laws np_laws c.weight_cap cap_nonneg

  abbrev blended : F → F → F
  blended x y = lit 5 1 * x + lit 5 1 * y

  half-InRange : (x : F) → InRange x → InRange (lit 5 1 * x)
  half-InRange x (inl h) = inl (mul-nan _ x h)
  half-InRange x (inr h) =
      inr (
        scale_nonneg _ x (lit_finite 5 1 (omega arith)) (lit_pos 5 1 (omega arith) (omega arith)) h)

  add-InRange : (x y : F) → InRange x → InRange y → InRange (x + y)
  add-InRange x y (inl h) k = inl (add-nan x y (ground arith))
  add-InRange x y (inr h) (inl k) = inl (add-nan x y (ground arith))
  add-InRange x y (inr h) (inr k) = inr (add_nonneg x y h k)

  blend-InRange : (a b : List F) → IsNotShort a → IsNotShort b → All InRange (zip_with blended a b)
  unfolding zip_with
  blend-InRange [] b h k = tt
  blend-InRange (x ∷ a) [] h k = tt
  blend-InRange (x ∷ a) (y ∷ b) h k = (
    add-InRange _ _ (half-InRange x (range x h.0)) (half-InRange y (range y k.0)),
    blend-InRange a b h.1 k.1,
  )

  numbers : (xs : List F) → All InRange xs → All (λ x. is_nan x ≡ false) xs → All (λ x. zero ≼ x) xs
  numbers [] h k = tt
  numbers (x ∷ xs) h k = (ground arith, numbers xs h.1 k.1)

  share-IsNotNegative :
      (total x : F)
      → (is_nan total ≡ false → (zero ≼ x) × (lt zero x ≡ true → lt zero total ≡ true))
      → IsNotNegative (x / total)
  share-IsNotNegative total x h = elim (Bool-cases (is_nan total)) [
    | inl n ↦ nan-IsNotNegative np laws np_laws c.weight_cap cap_nonneg _ (div-nan x total n)
    | inr n ↦
        let (nonneg, up) = h n in
        elim (Bool-cases (lt zero x)) [
          | inl p ↦ div_not_neg x total nonneg (up p)
          | inr p ↦ zero_div_not_neg x total nonneg p
        ]
  ]

  -- The entries of `part` of the list, divided by the sum of the whole.
  shares-IsNotShort :
      (xs part : List F)
      → All InRange xs
      → ((x : F) → Has x part → Has x xs)
      → IsNotShort (map (λ x. x / np.array_sum xs) part)
  shares-IsNotShort xs [] h sub = tt
  shares-IsNotShort xs (x ∷ part) h sub = (
    share-IsNotNegative (np.array_sum xs) x (λ n.
        let all = numbers xs h (array_sum_numbers xs n) in
        (
          All-Has (λ y. zero ≼ y) xs x all (sub x (inl refl)),
          array_sum_pos xs x all (sub x (inl refl)),
        )),
    shares-IsNotShort xs part h (λ y m. sub y (inr m)),
  )

  guarded :
      (found w : List F)
      → IsNotShort found
      → (if is_unusable found then equal_weights (length c.symbols) else some found) ≡ some w
      → IsNotShort w
  guarded found =
      if-case {A = Option (List F)}
        (λ o. (w : List F) → IsNotShort found → o ≡ some w → IsNotShort w) (is_unusable found)
        (λ _ w _ e.
          (equal_weights-IfAny np laws np_laws c.weight_cap cap_nonneg (length c.symbols) w e).1)
        (λ _ w h e. subst IsNotShort (some-injective _ _ e) h)

  -- Under the laws of IEEE 754 and of numpy, with a cap of at least 0, and whatever the estimates
  -- and the volatilities, NaN included, no weight that a rebalance chooses is below 0 (one that
  -- is NaN is not below 0).
  pub choose_weights-IsNotShort :
      (mu : List F) (cov : List (List F)) (model_vols : List F) (w : List F)
      → choose_weights np c mu cov model_vols ≡ some w
      → IsNotShort w
  unfolding choose_weights
  choose_weights-IsNotShort mu cov model_vols w e =
      let (found, f₁, e₁) =
        >>=-eq-some (optimize_sharpe_proxy np mu cov c.weight_cap c.max_opt_iters c.opt_step_size) _
          e in
      let (opt, f₂, e₂) =
        >>=-eq-some (if is_unusable found then equal_weights (length c.symbols) else some found) _
          e₁ in
      let (iv, f₃, e₃) = >>=-eq-some (inverse_vol_weights np model_vols c.weight_cap) _ e₂ in
      let opt_ok =
        guarded found opt
          (optimize_sharpe_proxy-IsNotShort np laws np_laws c.weight_cap cap_nonneg mu cov
            c.max_opt_iters c.opt_step_size found f₁)
          f₂ in
      let iv_ok =
        (inverse_vol_weights-IfAny np laws np_laws c.weight_cap cap_nonneg model_vols iv f₃).1 in
      let blend = zip_with blended opt iv in
      subst IsNotShort (some-injective _ _ e₃) (
        if-case {A = List F} IsNotShort (any (λ v. le v zero) model_vols) (λ _. opt_ok)
          (λ _. shares-IsNotShort blend blend (blend-InRange opt iv opt_ok iv_ok) (λ x m. m)))
