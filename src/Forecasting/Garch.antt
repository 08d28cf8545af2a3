-- ===== src/Forecasting/Garch.antt =====
-- `GARCHModel` of forecasting/models/garch_model.py. The attribute `model`, which nothing reads, is
-- left out. `none` is an exception.
pub mod Total
use portfolio_engine.Prelude.{
  ℕ, String, Bool, true, false, ◌||◌, not, Option, none, some, List, [], ◌∷◌, map, length, ltb,
  ◌==◌, ◌>>=◌, if◌then◌else◌,
}
use portfolio_engine.Database.{where_true}
use portfolio_engine.Float.{Float, ◌-◌, ◌*◌, ◌/◌, lit, sqrt, pow, lt, le, is_finite, zero, one, max}

-- What the models use of numpy: the mean, the standard deviation with `ddof=1`, and `np.maximum`.
pub record Stats (F : Type 0) : Type 0 where
  pub mean : List F → F
  pub std : List F → F
  pub maximum : F → F → F

-- The package arch: a fit with a distribution, with its convergence flag, and the variance that a
-- fitted model forecasts at the last of some steps. `none` is an exception.
pub record Arch (F : Type 0) : Type 1 where
  pub Fit : Type 0
  pub fit_arch : String → List F → Option (Fit × ℕ)
  pub forecast : Fit → ℕ → Option F

pub record GarchModel (F : Type 0) (Fit : Type 0) : Type 0 where
  pub fitted : Option Fit
  pub scale : F
  pub fallback_vol : Option F

module _ {F : Type 0} ⦃f : Float F⦄ where
  -- No spread to speak of, or none that is a number.
  abbrev pub is_flat : F → Bool
  is_flat sample_std = not (is_finite sample_std) || le sample_std (lit 1 12)

  abbrev pub scale_of : F → F
  scale_of sample_std = if lt sample_std (lit 1 4) then lit 10000 0 else one

module _ {F : Type 0} ⦃f : Float F⦄ (stats : Stats F) (arch : Arch F) where
  open arch use {Fit, fit_arch, forecast}

  abbrev pub Model : Type 0
  Model = GarchModel F Fit

  -- `__init__`
  abbrev pub new_model : Model
  new_model = record { fitted = none; scale = one; fallback_vol = none }

  -- The loop over the distributions; an exception and a flag other than 0 both go on.
  unfoldable pub attempt : List String → List F → Option Fit
  attempt [] scaled = none
  attempt (dist ∷ dists) scaled =
      let rest = attempt dists scaled in
      elim (fit_arch dist scaled) [
        | none ↦ rest
        | some (fitted, flag) ↦ if flag == 0 then some fitted else rest
      ]

  -- After the loop.
  abbrev pub fitted_or_std : F → F → Option Fit → Model
  fitted_or_std scale sample_std none = record {
    fitted = none;
    scale = scale;
    fallback_vol = some sample_std;
  }
  fitted_or_std scale sample_std (some fitted) = record {
    fitted = some fitted;
    scale = scale;
    fallback_vol = none;
  }

  -- From the returns about their mean, and their standard deviation.
  unfoldable pub fit_centred : List F → F → Model
  unfolding attempt
  fit_centred clean sample_std =
      let scale = scale_of sample_std in
      if is_flat sample_std
      then record { fitted = none; scale = one; fallback_vol = some zero }
      else fitted_or_std scale sample_std
          (attempt ("normal" ∷ "t" ∷ []) (map (λ x. x * scale) clean))

  unfoldable pub fit_clean : List F → Model
  unfolding fit_centred
  fit_clean finite =
      let clean = map (λ x. x - stats.mean finite) finite in
      fit_centred clean (if ltb 1 (length clean) then stats.std clean else zero)

  unfoldable pub fit : Option (List F) → Option Model
  unfolding fit_clean
  fit none = none
  fit (some returns) =
      let clean = where_true is_finite returns in
      if ltb (length returns) 20
      then none
      else if ltb (length clean) 20
      then none
      else some (fit_clean clean)

  -- With a fitted model, from the variance that it forecasts.
  abbrev pub vol_of : F → F → F
  vol_of scale raw_variance =
      let variance = if lt raw_variance zero then zero else raw_variance in
      sqrt (max (variance / pow scale 2) zero)

  unfoldable pub predict_from : Option Fit → F → Option F → ℕ → Option F
  predict_from none scale (some fallback_vol) steps = some (max fallback_vol zero)
  predict_from none scale none steps = none
  predict_from (some fitted) scale fallback_vol steps = do
    raw_variance ← forecast fitted steps
    some (vol_of scale raw_variance)

  unfoldable pub predict : ℕ → Model → Option F
  unfolding predict_from
  predict steps m = predict_from m.fitted m.scale m.fallback_vol steps
