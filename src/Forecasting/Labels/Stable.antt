-- ===== src/Forecasting/Labels/Stable.antt =====
-- A label depends on no price after its window.
use Prim.Native.Nat.{zero as nat_zero}
use portfolio_engine.Prelude.{
  ℕ, suc, ◌+◌ as nat_add, ◌≤◌, ◌<◌, ◌≡◌, refl, ap, sym, ◌∙◌, some, List, [], ◌∷◌, ◌++◌, map, take,
  drop, length, length-append, get_elem?, leb, le→leb, arith, true,
}
use portfolio_engine.Float.{Float, nan, log, ◌/◌}
use portfolio_engine.Portfolio.Numpy.{Numpy}
use portfolio_engine.Forecasting.Labels.{
  square, squares_after, squared_returns, indices, label_at, compute_forward_realized_vol,
}

module _ {A : Type 0} where
  take-append : (n : ℕ) (xs ys : List A) → n ≤ length xs → take n (xs ++ ys) ≡ take n xs
  take-append nat_zero xs ys h = refl
  take-append (suc n) [] ys h = absurd (omega arith)
  take-append (suc n) (x ∷ xs) ys h = ap (λ v. x ∷ v) (take-append n xs ys (omega arith))

  slice-append :
      (i w : ℕ) (xs ys : List A)
      → nat_add i w ≤ length xs
      → take w (drop i (xs ++ ys)) ≡ take w (drop i xs)
  slice-append nat_zero w xs ys h = take-append w xs ys (omega arith)
  slice-append (suc i) w [] ys h = absurd (omega arith)
  slice-append (suc i) w (x ∷ xs) ys h = slice-append i w xs ys (omega arith)

map-indices :
    {B : Type 0} (g : ℕ → B) (i n k : ℕ)
    → k < n
    → get_elem? (map g (indices i n)) k ≡ some (g (nat_add i k))
unfolding indices
map-indices g i nat_zero k h = absurd (omega arith)
map-indices g i (suc n) nat_zero h = ap (λ j. some (g j)) (omega arith)
map-indices g i (suc n) (suc k) h =
    map-indices g (suc i) n k (omega arith) ∙ ap (λ j. some (g j)) (omega arith)

map-indices_zero :
    {B : Type 0} (g : ℕ → B) (n k : ℕ) → k < n → get_elem? (map g (indices 0 n)) k ≡ some (g k)
map-indices_zero g n k h = map-indices g 0 n k h ∙ ap (λ j. some (g j)) (omega arith)

module _ {F : Type 0} ⦃f : Float F⦄ where
  squares_after-append :
      (c : F) (xs ys : List F)
      → (zs : List F) × (squares_after c (xs ++ ys) ≡ squares_after c xs ++ zs)
  unfolding squares_after
  squares_after-append c [] ys = (_, refl)
  squares_after-append c (x ∷ xs) ys =
      let (zs, e) = squares_after-append x xs ys in (zs, ap (λ v. square (log (x / c)) ∷ v) e)

  squared_returns-append :
      (xs ys : List F) → (zs : List F) × (squared_returns (xs ++ ys) ≡ squared_returns xs ++ zs)
  unfolding squared_returns
  squared_returns-append [] ys = (_, refl)
  squared_returns-append (x ∷ xs) ys =
      let (zs, e) = squares_after-append x xs ys in (zs, ap (λ v. square (log (x / nan)) ∷ v) e)

  length-squares_after : (c : F) (xs : List F) → length (squares_after c xs) ≡ length xs
  unfolding squares_after
  length-squares_after c [] = refl
  length-squares_after c (x ∷ xs) = ap suc (length-squares_after x xs)

  length-squared_returns : (xs : List F) → length (squared_returns xs) ≡ length xs
  unfolding squared_returns
  length-squared_returns [] = refl
  length-squared_returns (x ∷ xs) = ap suc (length-squares_after x xs)

  module _ (np : Numpy F) where
    label_at-append :
        (window : ℕ) (xs ys : List F) (i : ℕ)
        → nat_add i window < length xs
        → label_at np window (xs ++ ys) i ≡ label_at np window xs i
    unfolding label_at
    label_at-append window xs ys i h =
        let early : leb (suc (nat_add i window)) (length xs) ≡ true = le→leb _ _ (omega arith) in
        let late : leb (suc (nat_add i window)) (length (xs ++ ys)) ≡ true =
          le→leb _ _ (omega (arith, length-append xs ys)) in
        rw (early, late, slice-append (suc i) window xs ys (omega arith)) refl

    -- Once `window` prices have come after a price, the label of that price is settled: no later
    -- price changes it.
    pub label-IsStable :
        (window : ℕ) (close future : List F) (i : ℕ)
        → nat_add i window < length close
        → get_elem? (compute_forward_realized_vol np window (close ++ future)) i
          ≡ get_elem? (compute_forward_realized_vol np window close) i
    unfolding compute_forward_realized_vol
    label-IsStable window close future i h =
        let (zs, e) = squared_returns-append close future in
        let n = length-squared_returns close in
        let all = length-squared_returns (close ++ future) in
        map-indices_zero _ _ i (omega (arith, length-append close future))
        ∙ ap (λ v. some (label_at np window v i)) e
        ∙ ap some (label_at-append window (squared_returns close) zs i (omega arith))
        ∙ sym (map-indices_zero _ _ i (omega arith))
