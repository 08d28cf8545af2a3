-- ===== src/Forecasting/Inference/Stall.antt =====
-- A batch of feature rows that no later row gets into.
use Prim.Native.Nat.{zero as nat_zero}
use portfolio_engine.Prelude.{
  ℕ, suc, ◌≤◌, ◌≡◌, refl, ap, ◌∙◌, String, false, List, [], ◌∷◌, ◌++◌, take, length, All, All-imp,
  le→leb, arith,
}
use portfolio_engine.Float.{Float}
use portfolio_engine.Database.{
  order_by_time-All, FeatureRow, ForecastRow, where_true, where_true-All, where_true-append,
  where_true-none, place, order_by_time,
}
use portfolio_engine.Forecasting.Store.{is_unforecasted, fetch_unforecasted_features}
use portfolio_engine.Forecasting.Inference.{Bundle, is_valid, predict}

module _ {R : Type 0} (time : R → ℕ) where
  -- No row of the second list is earlier.
  abbrev pub IsBefore : List R → List R → Type 0
  IsBefore xs ys = All (λ x. All (λ y. time x ≤ time y) ys) xs

  place-append :
      (r : R) (a b : List R)
      → All (λ q. time r ≤ time q) b
      → place time r (a ++ b) ≡ place time r a ++ b
  unfolding place
  place-append r [] [] h = refl
  place-append r [] (q ∷ b) h = rw (le→leb _ _ h.0) refl
  place-append r (x ∷ a) b h = ground (arith, place-append r a b h)

  order_by_time-append :
      (xs ys : List R)
      → IsBefore xs ys
      → order_by_time time (xs ++ ys) ≡ order_by_time time xs ++ order_by_time time ys
  unfolding order_by_time
  order_by_time-append [] ys h = refl
  order_by_time-append (x ∷ xs) ys h =
      ap (place time x) (order_by_time-append xs ys h.1)
      ∙ place-append x (order_by_time time xs) (order_by_time time ys)
          (order_by_time-All time (λ q. time x ≤ time q) ys h.0)

take-full :
    {A : Type 0} (n : ℕ) (xs ys : List A) → length (take n xs) ≡ n → take n (xs ++ ys) ≡ take n xs
take-full nat_zero xs ys h = refl
take-full (suc n) [] ys h = absurd (omega arith)
take-full (suc n) (x ∷ xs) ys h = ap (λ v. x ∷ v) (take-full n xs ys (omega arith))

module _ {F : Type 0} where
  fetch-full :
      (features more : List (FeatureRow F)) (forecasts : List (ForecastRow F)) (s : String)
      (limit : ℕ)
      → length (fetch_unforecasted_features features forecasts s limit) ≡ limit
      → IsBefore (λ (r : FeatureRow F). r.time) features more
      → fetch_unforecasted_features (features ++ more) forecasts s limit
        ≡ fetch_unforecasted_features features forecasts s limit
  unfolding fetch_unforecasted_features
  fetch-full features more forecasts s limit full later =
      let test = is_unforecasted forecasts s in
      let time : FeatureRow F → ℕ = λ r. r.time in
      let kept = where_true test features in
      let added = where_true test more in
      let before : IsBefore time kept added =
        where_true-All (λ x. All (λ y. time x ≤ time y) added) test features
          (All-imp features (λ x h. where_true-All (λ y. time x ≤ time y) test more h) later) in
      ap (λ v. take limit (order_by_time time v)) (where_true-append test features more)
      ∙ ap (take limit) (order_by_time-append time kept added before)
      ∙ take-full limit (order_by_time time kept) (order_by_time time added) full

  module _ ⦃f : Float F⦄ where
    -- If the batch that is fetched for a symbol is as long as the limit, and none of its rows is
    -- valid, nothing is predicted for the symbol, however many feature rows come that are not
    -- earlier than those there.
    pub full_batch-predict :
        (features more : List (FeatureRow F)) (forecasts : List (ForecastRow F)) (s : String)
        (limit : ℕ) (bundle : Bundle F)
        → length (fetch_unforecasted_features features forecasts s limit) ≡ limit
        → All
            (λ r. is_valid bundle.feature_cols r ≡ false)
            (fetch_unforecasted_features features forecasts s limit)
        → IsBefore (λ (r : FeatureRow F). r.time) features more
        → predict s bundle (
            where_true
              (is_valid bundle.feature_cols)
              (fetch_unforecasted_features (features ++ more) forecasts s limit))
          ≡ []
    unfolding predict
    full_batch-predict features more forecasts s limit bundle full invalid later =
        ap (λ v. predict s bundle (where_true (is_valid bundle.feature_cols) v))
          (fetch-full features more forecasts s limit full later)
        ∙ ap (predict s bundle) (where_true-none (is_valid bundle.feature_cols) _ invalid)
