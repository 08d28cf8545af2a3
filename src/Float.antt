-- ===== src/Float.antt =====
-- Python floats, as an interface: the operations that the services use, and the laws of IEEE 754
-- that the theorems rest on. antt has no floats, so the type and its operations are a parameter.
pub mod Int
pub mod Fixed
use portfolio_engine.Prelude.{
  ℕ, ◌≤◌, ◌<◌, ◌^◌, ◌≡◌, Bool, true, false, ◌||◌, List, All, if◌then◌else◌,
}

-- `lit m e` is the literal m·10⁻ᵉ, and `lit n 0` the conversion of the integer `n`.
pub record Float (F : Type 0) : Type 0 where
  pub lit : ℕ → ℕ → F
  pub add : F → F → F
  pub sub : F → F → F
  pub mul : F → F → F
  pub div : F → F → F
  pub abs : F → F
  pub sqrt : F → F
  -- `a ** n`, for a numeral `n`.
  pub pow : F → ℕ → F
  pub log : F → F
  pub lt : F → F → Bool
  pub le : F → F → Bool
  pub is_nan : F → Bool
  pub is_finite : F → Bool
  pub nan : F
  -- Python's `sum` of an iterable of floats.
  pub sum : List F → F

module _ {F : Type 0} ⦃f : Float F⦄ where
  infixl 65 ◌+◌ ◌-◌
  infixl 70 ◌*◌ ◌/◌
  infix 4 ◌≼◌
  abbrev pub ◌+◌ : F → F → F
  ◌+◌ = f.add

  abbrev pub ◌-◌ : F → F → F
  ◌-◌ = f.sub

  abbrev pub ◌*◌ : F → F → F
  ◌*◌ = f.mul

  abbrev pub ◌/◌ : F → F → F
  ◌/◌ = f.div

  abbrev pub lit : ℕ → ℕ → F
  lit = f.lit

  abbrev pub abs : F → F
  abs = f.abs

  abbrev pub sqrt : F → F
  sqrt = f.sqrt

  abbrev pub pow : F → ℕ → F
  pow = f.pow

  abbrev pub log : F → F
  log = f.log

  abbrev pub lt : F → F → Bool
  lt = f.lt

  abbrev pub le : F → F → Bool
  le = f.le

  abbrev pub is_nan : F → Bool
  is_nan = f.is_nan

  abbrev pub is_finite : F → Bool
  is_finite = f.is_finite

  abbrev pub nan : F
  nan = f.nan

  abbrev pub sum : List F → F
  sum = f.sum

  abbrev pub ◌≼◌ : F → F → Type 0
  a ≼ b = f.le a b ≡ true

  abbrev pub zero : F
  zero = f.lit 0 0

  abbrev pub one : F
  one = f.lit 1 0

  abbrev pub IsFinite : F → Type 0
  IsFinite a = f.is_finite a ≡ true

  -- The builtins `max(a, b)` and `min(a, b)`: the first argument, unless the second is strictly
  -- greater (smaller). So `max(0.0, nan)` is 0.0, and `max(nan, 0.0)` is NaN.
  abbrev pub max : F → F → F
  max a b = if f.lt a b then b else a

-- Documented behaviour of binary64 arithmetic, with rounding, infinities and NaN.
pub record IsIeee (F : Type 0) ⦃f : Float F⦄ : Type 0 where
  pub finite_number : (a : F) → is_finite a ≡ true → is_nan a ≡ false
  pub le_numbers : (a b : F) → a ≼ b → (is_nan a ≡ false) × (is_nan b ≡ false)
  pub lt_numbers : (a b : F) → lt a b ≡ true → (is_nan a ≡ false) × (is_nan b ≡ false)
  pub le_refl : (a : F) → is_nan a ≡ false → a ≼ a
  pub le_trans : (a b c : F) → a ≼ b → b ≼ c → a ≼ c
  pub le_of_lt : (a b : F) → lt a b ≡ true → a ≼ b
  pub lt_of_not_le :
      (a b : F) → is_nan a ≡ false → is_nan b ≡ false → le a b ≡ false → lt b a ≡ true
  pub le_of_not_lt : (a b : F) → is_nan a ≡ false → is_nan b ≡ false → lt a b ≡ false → b ≼ a
  pub not_lt_of_le : (a b : F) → a ≼ b → lt b a ≡ false
  pub not_le_of_lt : (a b : F) → lt a b ≡ true → le b a ≡ false
  pub lit_nonneg : (m e : ℕ) → zero ≼ lit {F = F} m e
  pub lit_finite : (m e : ℕ) → m ≤ 2 ^ 53 → IsFinite (lit {F = F} m e)
  pub lit_pos : (m e : ℕ) → 0 < m → e ≤ 12 → lt zero (lit {F = F} m e) ≡ true
  pub abs_nonneg : (a : F) → is_nan a ≡ false → zero ≼ abs a
  pub sqrt_nonneg : (a : F) → zero ≼ a → zero ≼ sqrt a
  pub sqrt-nan : (a : F) → is_nan a ≡ true → is_nan (sqrt a) ≡ true
  pub add_number : (a b : F) → IsFinite a → is_nan b ≡ false → is_nan (a + b) ≡ false
  pub sub_number : (a b : F) → IsFinite a → is_nan b ≡ false → is_nan (a - b) ≡ false
  pub div_number :
      (a b : F) → is_nan a ≡ false → IsFinite b → lt zero b ≡ true → is_nan (a / b) ≡ false
  pub finite_between : (a b : F) → zero ≼ a → a ≼ b → IsFinite b → IsFinite a
  pub add-nan : (a b : F) → (is_nan a || is_nan b) ≡ true → is_nan (a + b) ≡ true
  pub mul-nan : (a b : F) → is_nan b ≡ true → is_nan (a * b) ≡ true
  pub nan-div : (a b : F) → is_nan a ≡ true → is_nan (a / b) ≡ true
  pub div-nan : (a b : F) → is_nan b ≡ true → is_nan (a / b) ≡ true
  -- A quotient of nothing is nothing or NaN, and one of numbers that are not negative is not
  -- negative; it may be NaN.
  pub zero_div_not_neg : (a b : F) → zero ≼ a → lt zero a ≡ false → lt (a / b) zero ≡ false
  pub div_not_neg : (a b : F) → zero ≼ a → lt zero b ≡ true → lt (a / b) zero ≡ false
  pub recip_finite : (a : F) → lit 1 12 ≼ a → IsFinite (one / a)
  pub zero-div : (a : F) → IsFinite a → lt zero a ≡ true → zero / a ≡ zero
  pub lt_of_lt_of_le : (a b c : F) → lt a b ≡ true → b ≼ c → lt a c ≡ true
  pub add_nonneg : (a b : F) → zero ≼ a → zero ≼ b → zero ≼ a + b
  pub mul_nonneg : (a b : F) → IsFinite a → IsFinite b → zero ≼ a → zero ≼ b → zero ≼ a * b
  pub scale_nonneg : (a b : F) → IsFinite a → lt zero a ≡ true → zero ≼ b → zero ≼ a * b
  pub div_nonneg : (a b : F) → IsFinite a → zero ≼ a → lt zero b ≡ true → zero ≼ a / b
  pub sum_nonneg : (xs : List F) → All (λ x. zero ≼ x) xs → zero ≼ sum xs
  pub sub_self : (a : F) → IsFinite a → a - a ≡ zero
  pub div_self : (a : F) → IsFinite a → lt zero a ≡ true → a / a ≡ one
  pub sub_zero : (a : F) → a - zero ≡ a
  pub abs_zero : abs (zero {F = F}) ≡ zero
  pub mul_zero : (a : F) → IsFinite a → lt zero a ≡ true → a * zero ≡ zero
  pub sum_zeros : (xs : List F) → All (λ x. x ≡ zero) xs → sum xs ≡ zero
  pub sub_le : (a c : F) → IsFinite a → zero ≼ c → a - c ≼ a
  pub add_mono : (c a b : F) → IsFinite c → a ≼ b → c + a ≼ c + b
  pub mul_mono :
      (c a b : F) → IsFinite c → IsFinite a → IsFinite b → zero ≼ c → a ≼ b → c * a ≼ c * b
