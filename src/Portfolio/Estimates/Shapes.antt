-- ===== src/Portfolio/Estimates/Shapes.antt =====
-- The shapes of the estimates fit the symbols.
use mathlib.Core.Path.{subst}
use mathlib.Core.Option.{some-injective}
use Prim.Native.Nat.{zero as nat_zero}
use portfolio_engine.Prelude.{
  ℕ, suc, ◌≡◌, refl, ap, ◌∙◌, String, some, List, [], ◌∷◌, length, length-map, length-replicate,
  All, All-map, All-imp, arith, if-case, >>=-eq-some, sym, ltb, ◌||◌,
}
use portfolio_engine.Float.{Float, ◌+◌, zero}
use portfolio_engine.Dict.{Dict}
use portfolio_engine.Database.{PriceRow}
use portfolio_engine.Portfolio.Allocator.{zip_with}
use portfolio_engine.Portfolio.Estimates.{
  Pandas, eye, diagonal, add_matrices, cov_rows, to_return_matrix, estimate_mu, estimate_covariance,
}

module _ {F : Type 0} where
  -- A matrix of `n` rows of `m` entries.
  abbrev pub HasShape : ℕ → ℕ → List (List F) → Type 0
  HasShape n m rows = (length rows ≡ n) × All (λ r. length r ≡ m) rows

module _ (F : Type 0) ⦃f : Float F⦄ where
  eye-HasShape : (n : ℕ) → HasShape n n (eye {F = F} n)
  unfolding eye
  eye-HasShape nat_zero = (refl, tt)
  eye-HasShape (suc n) =
      let (l, h) = eye-HasShape n in
      (
        ap suc (length-map _ (eye n) ∙ l),
        (
          ap suc (length-replicate n zero),
          All-map _ _ (eye n) (All-imp (eye n) (λ r e. ap suc e) h),
        ),
      )

module _ {F : Type 0} ⦃f : Float F⦄ where
  diagonal-HasShape : (n : ℕ) (x : F) → HasShape n n (diagonal n x)
  unfolding diagonal
  diagonal-HasShape n x =
      let (l, h) = eye-HasShape F n in
      (
        length-map _ (eye n) ∙ l,
        All-map _ _ (eye n) (All-imp (eye n) (λ r e. length-map _ r ∙ e) h),
      )

  length-zip_with :
      (g : F → F → F) (xs ys : List F)
      → length xs ≡ length ys
      → length (zip_with g xs ys) ≡ length xs
  unfolding zip_with
  length-zip_with g [] ys e = refl
  length-zip_with g (x ∷ xs) [] e = absurd (omega arith)
  length-zip_with g (x ∷ xs) (y ∷ ys) e = ap suc (length-zip_with g xs ys (omega arith))

  add_matrices-HasShape :
      (n m : ℕ) (a b : List (List F))
      → HasShape n m a
      → HasShape n m b
      → HasShape n m (add_matrices a b)
  unfolding add_matrices
  add_matrices-HasShape n m [] b h k = (h.0, tt)
  add_matrices-HasShape n m (r ∷ a) [] h k = absurd (omega (arith, h.0, k.0))
  add_matrices-HasShape n m (r ∷ a) (q ∷ b) h k =
      let (l, w) =
        add_matrices-HasShape (length a) m a b (refl, h.1.1) (omega (arith, h.0, k.0), k.1.1) in
      (ap suc l ∙ h.0, (length-zip_with ◌+◌ r q (h.1.0 ∙ sym k.1.0) ∙ h.1.0, w))

  cov_rows-HasShape :
      (d : Dict (Dict F)) (rows columns : List String)
      → HasShape (length rows) (length columns) (cov_rows d rows columns)
  cov_rows-HasShape d [] columns = (refl, tt)
  cov_rows-HasShape d (s ∷ rows) columns =
      let (l, h) = cov_rows-HasShape d rows columns in (ap suc l, (length-map _ columns, h))

  -- When the estimates do not raise, there is one return for each symbol, and the covariance
  -- matrix is square over the symbols, with or without data.
  estimates-HasShape :
      (pd : Pandas F) (prices short_prices : List (PriceRow F)) (symbols : List String)
      (shrinkage : F) (mu : List F) (cov : List (List F))
      → estimate_mu pd short_prices symbols ≡ some mu
      → estimate_covariance pd prices symbols shrinkage ≡ some cov
      → (length mu ≡ length symbols) × HasShape (length symbols) (length symbols) cov
  unfolding estimate_mu estimate_covariance
  estimates-HasShape pd prices short_prices symbols shrinkage mu cov e c =
      let n = length symbols in
      let (returns, _, r) = >>=-eq-some (to_return_matrix pd short_prices symbols) _ e in
      let (history, _, k) = >>=-eq-some (to_return_matrix pd prices symbols) _ c in
      (
        subst (λ v. length v ≡ n) (some-injective _ _ r)
            (if-case {A = List F} (λ v. length v ≡ n) (pd.is_empty returns)
              (λ _. length-replicate n zero) (λ _. length-map _ symbols)),
        subst (HasShape n n) (some-injective _ _ k) (
            if-case {A = List (List F)} (HasShape n n)
              (pd.is_empty history || ltb (pd.row_count history) 2) (λ _. diagonal-HasShape n _)
              (λ _.
                add_matrices-HasShape n n _ _ (cov_rows-HasShape _ symbols symbols)
                  (diagonal-HasShape n _))),
      )
