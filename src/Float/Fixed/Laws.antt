-- ===== src/Float/Fixed/Laws.antt =====
-- The fixed-point numbers meet the laws of Float.
use native.Mathlib.Nat.{
  mul-le-mul_left, pow-le-pow_right, one-le-pow, mul-div_right, le-div_iff_mul-le,
}
use portfolio_engine.Prelude.{
  ℕ, zero as nat_zero, suc, ◌≤◌, ◌≡◌, refl, true, false, none, some, List, [], ◌∷◌, All, arith,
  leb→le, le→leb, ◌<◌, ◌*◌, ◌/◌, ◌^◌,
}
use portfolio_engine.Float.{IsIeee, IsFinite, ◌≼◌, lt, zero, lit}
use portfolio_engine.Float.Int.{pos, negsuc, signed, ◌+ℤ◌, ◌-ℤ◌, +ℤ_parts}
use portfolio_engine.Float.Fixed.{scale, over, Fixed, fixed_float, times, divide, lift, add_all}

ruleset tests = (arith, leb→le, le→leb)

times_mono : (c a b : ℕ) → a ≤ b → times c a ≤ times c b
unfolding times
times_mono c a b h = omega (arith, mul-le-mul_left c h)

times-zero : (a : ℕ) → times a 0 ≡ 0
unfolding times
times-zero a = omega arith

pub add_all_nonneg : (xs : List Fixed) → All (λ x. some (pos 0) ≼ x) xs → some (pos 0) ≼ add_all xs
unfolding add_all
add_all_nonneg [] h = refl
add_all_nonneg (x ∷ xs) h = ground (arith, add_all_nonneg xs h.1)

add_all_zeros : (xs : List Fixed) → All (λ x. x ≡ some (pos 0)) xs → add_all xs ≡ some (pos 0)
unfolding add_all
add_all_zeros [] h = refl
add_all_zeros (x ∷ xs) h = rw (h.0, add_all_zeros xs h.1)

add_mono : (c a b : Fixed) → IsFinite c → a ≼ b → lift ◌+ℤ◌ c a ≼ lift ◌+ℤ◌ c b
add_mono (some c) (some a) (some b) f h = omega (tests, +ℤ_parts c a, +ℤ_parts c b)
add_mono none _ _ f h = cc
add_mono _ none _ f h = cc
add_mono _ _ none f h = cc

mul_mono :
    (c a b : Fixed) → some (pos 0) ≼ c → a ≼ b → lift (signed times) c a ≼ lift (signed times) c b
mul_mono (some (pos c)) (some (pos a)) (some (pos b)) g h = ground (arith, times_mono c a b)
mul_mono (some (pos c)) (some (pos a)) (some (negsuc b)) g h = ground arith
mul_mono (some (pos c)) (some (negsuc a)) (some (pos b)) g h = ground arith
mul_mono (some (pos c)) (some (negsuc a)) (some (negsuc b)) g h =
    ground (arith, times_mono c (suc b) (suc a))
mul_mono (some (negsuc c)) _ _ g h = absurd (ground arith)
mul_mono none _ _ g h = cc
mul_mono _ none _ g h = cc
mul_mono _ _ none g h = cc

-- Twelve decimals resolve 10⁻ᵉ.
lit_pos : (m e : ℕ) → 0 < m → e ≤ 12 → lt zero (lit {F = Fixed} m e) ≡ true
lit_pos m e h k =
    let p : 10 ^ e ≤ scale = pow-le-pow_right (omega arith) k in
    let q : 1 ≤ m * scale / 10 ^ e =
      (le-div_iff_mul-le (one-le-pow e 10 (omega arith))).1 (omega arith) in
    ground arith

div_self : (a : Fixed) → IsFinite a → lt zero a ≡ true → divide a a ≡ lit 1 0
unfolding divide over
div_self (some (pos (suc a))) f h = ground (arith, mul-div_right scale {m = suc a} (omega arith))
div_self (some (pos nat_zero)) f h = absurd (ground arith)
div_self (some (negsuc a)) f h = absurd (ground arith)
div_self none f h = cc

zero-div : (a : Fixed) → IsFinite a → lt zero a ≡ true → divide (some (pos 0)) a ≡ some (pos 0)
unfolding divide over
zero-div (some (pos a)) f h = ground arith
zero-div (some (negsuc a)) f h = absurd (ground arith)
zero-div none f h = cc

zero_div_not_neg :
    (a b : Fixed) → some (pos 0) ≼ a → lt zero a ≡ false → lt (divide a b) zero ≡ false
unfolding divide over
zero_div_not_neg (some (pos a)) (some b) h k = ground arith
zero_div_not_neg (some (negsuc a)) _ h k = absurd (ground arith)
zero_div_not_neg none _ h k = cc
zero_div_not_neg _ none h k = refl

pub Fixed-IsIeee : IsIeee Fixed
unfolding times divide ◌+ℤ◌ ◌-ℤ◌
Fixed-IsIeee = record {
  finite_number = ground arith;
  le_numbers = ground arith;
  lt_numbers = ground arith;
  le_refl = ground arith;
  le_trans = ground arith;
  le_of_lt = ground arith;
  lt_of_not_le = ground arith;
  le_of_not_lt = ground arith;
  not_lt_of_le = ground arith;
  not_le_of_lt = ground arith;
  lit_nonneg = λ m e. ground arith;
  lit_finite = λ m e h. refl;
  lit_pos = lit_pos;
  abs_nonneg = ground arith;
  sqrt_nonneg = ground arith;
  sqrt-nan = ground arith;
  add_number = ground arith;
  sub_number = ground arith;
  div_number = ground arith;
  finite_between = ground arith;
  add-nan = ground arith;
  mul-nan = ground arith;
  nan-div = ground arith;
  div-nan = ground arith;
  zero_div_not_neg = zero_div_not_neg;
  div_not_neg = ground arith;
  recip_finite = ground arith;
  zero-div = zero-div;
  lt_of_lt_of_le = ground arith;
  add_nonneg = ground arith;
  mul_nonneg = ground arith;
  scale_nonneg = ground arith;
  div_nonneg = ground arith;
  sum_nonneg = add_all_nonneg;
  sub_self = ground arith;
  div_self = div_self;
  sub_zero = ground arith;
  abs_zero = refl;
  mul_zero = ground arith;
  sum_zeros = add_all_zeros;
  sub_le = ground arith;
  add_mono = add_mono;
  mul_mono = λ c a b _ _ _ g h. mul_mono c a b g h;
}
