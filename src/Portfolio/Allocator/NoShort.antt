-- ===== src/Portfolio/Allocator/NoShort.antt =====
-- The allocator never sells short: no weight is negative, whatever the inputs.
use mathlib.Core.Path.{subst}
use mathlib.Core.Option.{some-injective}
use Prim.Native.Nat.{zero as nat_zero}
use portfolio_engine.Prelude.{
  ℕ, suc, ◌≡◌, refl, ◌⊎◌, inl, inr, true, false, Bool-cases, Option, some, List, [], ◌∷◌, map,
  length, length-map, length-replicate, replicate, ◌∙◌, ap, sym, All, All-imp, All-map, arith, ◌==◌,
  if-case, >>=-eq-some,
}
use portfolio_engine.Float.{Float, IsIeee, abs, ◌≼◌, ◌-◌, ◌/◌, lit, lt, le, is_nan, zero, one}
use portfolio_engine.Portfolio.Numpy.{Numpy, IsNumpy}
use portfolio_engine.Portfolio.Allocator.{
  clip_all, free_count, shift_free, rounds, equal_weights, normalize, project_weights, raw_weights,
  safe, inverse_vol_weights, ascent, ascents, optimize_sharpe_proxy,
}

module _ {F : Type 0} ⦃f : Float F⦄ where
  -- `x < 0` is false: `x` is at least 0, or NaN.
  abbrev pub IsNotNegative : F → Type 0
  IsNotNegative x = lt x zero ≡ false

  abbrev pub IsNotShort : List F → Type 0
  IsNotShort w = All IsNotNegative w

  -- NaN, or at least 0.
  abbrev pub InRange : F → Type 0
  InRange x = (is_nan x ≡ true) ⊎ (zero ≼ x)

  module _ (np : Numpy F) (laws : IsIeee F) (np_laws : IsNumpy F np) (cap : F)
      (cap_nonneg : zero ≼ cap) where
    open laws use {
      lt_numbers, le_numbers, not_lt_of_le, lt_of_not_le, le_of_not_lt, nan-div, div-nan,
      div_not_neg, lit_nonneg, lit_pos,
    }
    open np_laws use {clip_bounds, clip_nan}

    pub nan-IsNotNegative : (x : F) → is_nan x ≡ true → IsNotNegative x
    nan-IsNotNegative x h = elim (Bool-cases (lt x zero)) [
      | inl e ↦ cc ((lt_numbers x zero e).0)
      | inr e ↦ e
    ]

    clip-InRange : (x : F) → InRange (np.clip x zero cap)
    clip-InRange x = elim (Bool-cases (is_nan x)) [
      | inl e ↦ inl (clip_nan x zero cap e)
      | inr e ↦ inr (clip_bounds x zero cap e cap_nonneg).0
    ]

    clip_all-InRange : (ws : List F) → All InRange (clip_all np cap ws)
    unfolding clip_all
    clip_all-InRange [] = tt
    clip_all-InRange (x ∷ ws) = (clip-InRange x, clip_all-InRange ws)

    shift_free-InRange : (delta : F) (v : List F) → All InRange (shift_free np cap delta v)
    unfolding shift_free
    shift_free-InRange delta [] = tt
    shift_free-InRange delta (x ∷ v) = (clip-InRange _, shift_free-InRange delta v)

    abbrev Kept : List F → List F → Type 0
    Kept v w = All InRange w × (length w ≡ length v)

    rounds-Kept : (k : ℕ) (v : List F) → All InRange v → Kept v (rounds np k cap v)
    unfolding rounds shift_free
    rounds-Kept nat_zero v h = (h, refl)
    rounds-Kept (suc k) v h =
        let stay : Kept v v = (h, refl) in
        if-case (Kept v) (lt (abs (one - np.array_sum v)) (lit 1 10)) (λ _. stay)
          λ _.
            if-case (Kept v) (free_count cap v == 0) (λ _. stay)
              λ _.
                let delta = (one - np.array_sum v) / lit (free_count cap v) 0 in
                let same : length (shift_free np cap delta v) ≡ length v = length-map _ v in
                let (inside, n) =
                  rounds-Kept k (shift_free np cap delta v) (shift_free-InRange delta v) in
                (inside, n ∙ same)

    IsNotNegative-of : (x : F) → InRange x → IsNotNegative x
    IsNotNegative-of x (inl h) = nan-IsNotNegative x h
    IsNotNegative-of x (inr h) = not_lt_of_le _ _ h

    pub InRange-of : (x : F) → IsNotNegative x → InRange x
    InRange-of x h = elim (Bool-cases (is_nan x)) [
      | inl e ↦ inl e
      | inr e ↦ inr (le_of_not_lt x zero e (le_numbers _ _ (lit_nonneg 0 0)).0 h)
    ]

    quotient-IsNotNegative :
        (x total : F) → le total zero ≡ false → InRange x → IsNotNegative (x / total)
    quotient-IsNotNegative x total e (inl h) = nan-IsNotNegative _ (nan-div x total h)
    quotient-IsNotNegative x total e (inr h) = elim (Bool-cases (is_nan total)) [
      | inl n ↦ nan-IsNotNegative _ (div-nan x total n)
      | inr n ↦ div_not_neg x total h (lt_of_not_le total zero n (le_numbers _ _ h).0 e)
    ]

    replicate-IsNotShort : (n : ℕ) (x : F) → IsNotNegative x → IsNotShort (replicate n x)
    replicate-IsNotShort nat_zero x h = tt
    replicate-IsNotShort (suc n) x h = (h, replicate-IsNotShort n x h)

    -- `n` weights, none of them negative.
    abbrev pub Fits : ℕ → List F → Type 0
    Fits n w = (length w ≡ n) × IsNotShort w

    abbrev pub IfAny : ℕ → Option (List F) → Type 0
    IfAny n o = (w : List F) → o ≡ some w → Fits n w

    given : (n : ℕ) (v : List F) → Fits n v → IfAny n (some v)
    given n v h w e = subst (Fits n) (some-injective _ _ e) h

    equal-Fits : (n : ℕ) → (n == 0) ≡ false → Fits n (replicate n (one / lit n 0))
    equal-Fits n z =
        let p =
          div_not_neg one (lit n 0) (lit_nonneg 1 0) (lit_pos n 0 (ground arith) (omega arith)) in
        (length-replicate n _, replicate-IsNotShort n _ p)

    pub equal_weights-IfAny : (n : ℕ) → IfAny n (equal_weights n)
    unfolding equal_weights
    equal_weights-IfAny n =
        if-case {A = Option (List F)} (IfAny n) (n == 0) (λ z w e. cc)
          λ z. given n _ (equal-Fits n z)

    normalize-IfAny : (v : List F) → All InRange v → IfAny (length v) (normalize np v)
    unfolding normalize
    normalize-IfAny v h =
        let total = np.array_sum v in
        if-case (IfAny (length v)) (le total zero) (λ _. equal_weights-IfAny (length v))
          λ z.
            given (length v) (map (λ x. x / total) v)
              (length-map _ v, All-map _ _ v (All-imp v (λ x. quotient-IsNotNegative x total z) h))

    -- Whatever the array and the number of rounds, NaN included: what the projection gives is as
    -- long as the array, and no entry is negative.
    project_weights-IfAny :
        (ws : List F) (max_iter : ℕ) → IfAny (length ws) (project_weights np ws cap max_iter)
    unfolding project_weights clip_all
    project_weights-IfAny ws max_iter =
        let v = clip_all np cap ws in
        let start = clip_all-InRange ws in
        let same : length v ≡ length ws = length-map _ ws in
        let (inside, n) = rounds-Kept max_iter v start in
        if-case (IfAny (length ws)) (np.isclose (np.array_sum v) one)
          (λ _. given (length ws) v (same, All-imp v IsNotNegative-of start))
          λ _ w e.
            let (m, h) = normalize-IfAny (rounds np max_iter cap v) inside w e in (m ∙ n ∙ same, h)

    length-raw : (inv raw : List F) → raw_weights np inv ≡ some raw → length raw ≡ length inv
    unfolding raw_weights
    length-raw inv =
        if-case {A = Option (List F)} (λ o. (raw : List F) → o ≡ some raw → length raw ≡ length inv)
          (lt zero (np.array_sum inv))
          (λ _ raw e. ap length (sym (some-injective _ _ e)) ∙ length-map _ inv)
          λ _ raw e. (equal_weights-IfAny (length inv) raw e).0

    pub inverse_vol_weights-IfAny :
        (vols : List F) → IfAny (length vols) (inverse_vol_weights np vols cap)
    unfolding inverse_vol_weights raw_weights
    inverse_vol_weights-IfAny vols w e =
        let inv = map (λ x. one / safe x) vols in
        let (raw, r, t) = >>=-eq-some (raw_weights np inv) _ e in
        let (n, h) = project_weights-IfAny raw 200 w t in
        (n ∙ length-raw inv raw r ∙ length-map _ vols, h)

    ascents-IfAny :
        (k : ℕ) (mu : List F) (cov : List (List F)) (step : F) (weights : List F)
        → IsNotShort weights
        → (w : List F) → ascents np k mu cov cap step weights ≡ some w
        → IsNotShort w
    unfolding ascents ascent
    ascents-IfAny nat_zero mu cov step weights h w e = subst IsNotShort (some-injective _ _ e) h
    ascents-IfAny (suc k) mu cov step weights h w e =
        let (next, s, t) = >>=-eq-some _ _ e in
        ascents-IfAny k mu cov step next (project_weights-IfAny _ 200 next s).1 w t

    pub optimize_sharpe_proxy-IsNotShort :
        (mu : List F) (cov : List (List F)) (max_iters : ℕ) (step : F) (w : List F)
        → optimize_sharpe_proxy np mu cov cap max_iters step ≡ some w
        → IsNotShort w
    unfolding optimize_sharpe_proxy
    optimize_sharpe_proxy-IsNotShort [] cov max_iters step w e =
        subst IsNotShort (some-injective _ _ e) tt
    optimize_sharpe_proxy-IsNotShort (m ∷ mu) cov max_iters step w e =
        ascents-IfAny max_iters (m ∷ mu) cov step _ (equal-Fits (length (m ∷ mu)) (ground arith)).1
          w e
