-- ===== src/Portfolio/Tests/Arrays.antt =====
-- An interface of numpy, and one of pandas, over the fixed-point numbers.
use Prim.Native.Nat.{zero as nat_zero}
use portfolio_engine.Prelude.{
  ℕ, suc, ◌≡◌, refl, true, false, none, some, List, [], ◌∷◌, ◌++◌, map, length, replicate, All, Has,
  inl, inr, arith, if◌then◌else◌,
}
use portfolio_engine.Float.{IsFinite, ◌≼◌, ◌+◌, ◌-◌, ◌*◌, lit, abs, lt, le, is_nan, zero}
use portfolio_engine.Float.Int.{pos, ◌+ℤ◌}
use portfolio_engine.Float.Fixed.{Fixed, fixed_float, add_all, times}
use portfolio_engine.Float.Fixed.Laws.{add_all_nonneg}
use portfolio_engine.Database.{PriceRow}
use portfolio_engine.Portfolio.Numpy.{Numpy, IsNumpy}
use portfolio_engine.Portfolio.Estimates.{Pandas}

abbrev pub clip_one : Fixed → Fixed → Fixed → Fixed
clip_one none lower upper = none
clip_one x lower upper = if lt x lower then lower else if lt upper x then upper else x

unfoldable pub inner : List Fixed → List Fixed → Fixed
unfolding ◌+ℤ◌ times
inner (x ∷ xs) (y ∷ ys) = x * y + inner xs ys
inner _ _ = zero

abbrev pub arrays : Numpy Fixed
arrays = record {
  array_sum = add_all;
  isclose = λ a b. le (abs (a - b)) (lit 1 8 + lit 1 5 * abs b);
  clip = clip_one;
  dot = inner;
  matvec = λ rows v. map (λ r. inner r v) rows;
}

zeros-sum : (n : ℕ) → add_all (replicate n (some (pos 0))) ≡ some (pos 0)
unfolding add_all
zeros-sum nat_zero = refl
zeros-sum (suc n) = rw (zeros-sum n)

single-sum :
    (m n : ℕ) (x : Fixed)
    → IsFinite x
    → add_all (replicate m (some (pos 0)) ++ x ∷ replicate n (some (pos 0))) ≡ x
unfolding add_all ◌+ℤ◌
single-sum nat_zero n x h = ground (arith, zeros-sum n)
single-sum (suc m) n x h = ground (arith, single-sum m n x h)

sum-numbers : (xs : List Fixed) → is_nan (add_all xs) ≡ false → All (λ x. is_nan x ≡ false) xs
unfolding add_all
sum-numbers [] h = tt
sum-numbers (x ∷ xs) h = ground (arith, sum-numbers xs)

sum-pos :
    (xs : List Fixed) (x : Fixed)
    → All (λ y. zero ≼ y) xs
    → Has x xs
    → lt zero x ≡ true
    → lt zero (add_all xs) ≡ true
unfolding add_all
sum-pos [] x h m p = elim m [ ]
sum-pos (y ∷ xs) x h (inl e) p = ground (arith, add_all_nonneg xs h.1)
sum-pos (y ∷ xs) x h (inr m) p = ground (arith, sum-pos xs x h.1 m p)

pub arrays-IsNumpy : IsNumpy Fixed arrays
arrays-IsNumpy = record {
  array_sum_nonneg = add_all_nonneg;
  array_sum_single = single-sum;
  clip_bounds = ground arith;
  clip_nan = ground arith;
  clip_above = ground arith;
  clip_below = ground arith;
  array_sum_numbers = sum-numbers;
  array_sum_pos = sum-pos;
}

-- A frame keeps the price rows; the mean and the covariance are those of flat prices.
abbrev pub frames : Pandas Fixed
frames = record {
  Frame = List (PriceRow Fixed);
  of_prices = λ rows. rows;
  of_columns = λ columns. [];
  is_empty = elim [ [] ↦ true | x ∷ xs ↦ false ];
  row_count = length;
  pivot = some;
  sort_index = λ d. d;
  reindex = λ columns d. d;
  shift = λ d. d;
  divide = λ a b. a;
  log = λ d. d;
  replace_infinite = λ d. d;
  dropna_rows = λ d. d;
  dropna_columns = λ d. d;
  fillna = λ x d. d;
  mean = λ d. [];
  cov = λ d. [];
}
