-- ===== src/Portfolio/Numpy.antt =====
-- What the allocator uses of numpy, as an interface. Elementwise arithmetic and comparison of
-- arrays are maps of the float operations; a 1-D array is a list and a matrix the list of its rows.
use portfolio_engine.Prelude.{ℕ, ◌≡◌, Bool, true, false, List, ◌∷◌, ◌++◌, All, Has, replicate}
use portfolio_engine.Float.{Float, IsFinite, ◌≼◌, is_nan, lt, zero}

pub record Numpy (F : Type 0) : Type 0 where
  -- `v.sum()`, which adds pairwise.
  pub array_sum : List F → F
  pub isclose : F → F → Bool
  -- `np.clip(x, lower, upper)` of one element.
  pub clip : F → F → F → F
  -- `a @ b` of vectors, and of a matrix and a vector.
  pub dot : List F → List F → F
  pub matvec : List (List F) → List F → List F

pub record IsNumpy (F : Type 0) ⦃f : Float F⦄ (np : Numpy F) : Type 0 where
  pub array_sum_nonneg : (xs : List F) → All (λ x. zero ≼ x) xs → zero ≼ np.array_sum xs
  -- Adding zeros to one number changes nothing.
  pub array_sum_single :
      (m n : ℕ) (x : F) → IsFinite x → np.array_sum (replicate m zero ++ x ∷ replicate n zero) ≡ x
  pub clip_bounds :
      (x lower upper : F)
      → is_nan x ≡ false
      → lower ≼ upper
      → (lower ≼ np.clip x lower upper) × (np.clip x lower upper ≼ upper)
  pub clip_nan : (x lower upper : F) → is_nan x ≡ true → is_nan (np.clip x lower upper) ≡ true
  pub clip_above : (x lower upper : F) → lower ≼ upper → upper ≼ x → np.clip x lower upper ≡ upper
  pub clip_below : (x lower upper : F) → lower ≼ upper → x ≼ lower → np.clip x lower upper ≡ lower
  pub array_sum_numbers :
      (xs : List F) → is_nan (np.array_sum xs) ≡ false → All (λ x. is_nan x ≡ false) xs
  pub array_sum_pos :
      (xs : List F) (x : F)
      → All (λ y. zero ≼ y) xs
      → Has x xs
      → lt zero x ≡ true
      → lt zero (np.array_sum xs) ≡ true
