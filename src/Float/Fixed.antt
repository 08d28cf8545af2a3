-- ===== src/Float/Fixed.antt =====
-- The laws of Float can be met: fixed-point numbers of twelve decimals, with `none` for NaN.
-- They have no infinity; a division by zero gives NaN, and products and quotients are cut off
-- towards zero. `sqrt` is the integer root, and `log` its first approximant 2(x - 1)/(x + 1).
pub mod Laws
use Prim.Native.Nat.{zero as nat_zero}
use portfolio_engine.Prelude.{
  ℕ, suc, ◌+◌, ◌-◌, ◌*◌, ◌/◌, ◌^◌, ◌≡◌, refl, Bool, true, false, Option, none, some, List, [], ◌∷◌,
  leb, ◌==◌, if◌then◌else◌,
}
use portfolio_engine.Float.{Float}
use portfolio_engine.Float.Int.{
  ℤ, pos, negsuc, pos_part, neg_part, sub_ℕ, ◌+ℤ◌, ◌-ℤ◌, abs_ℤ, signed, ltb_ℤ, leb_ℤ,
}

abbrev pub Fixed : Type 0
Fixed = Option ℤ

abbrev pub scale : ℕ
scale = 1_000_000_000_000

abbrev pub lift : (ℤ → ℤ → ℤ) → Fixed → Fixed → Fixed
lift g (some a) (some b) = some (g a b)
lift g _ _ = none

abbrev pub compare_numbers : (ℤ → ℤ → Bool) → Fixed → Fixed → Bool
compare_numbers g (some a) (some b) = g a b
compare_numbers g _ _ = false

unfoldable pub times : ℕ → ℕ → ℕ
times a b = a * b / scale

unfoldable pub over : ℕ → ℕ → ℕ
over a b = a * scale / b

unfoldable pub divide : Fixed → Fixed → Fixed
unfolding over
divide (some a) (some b) = if abs_ℤ b == 0 then none else some (signed over a b)
divide _ _ = none

-- The greatest root below 2ᵏ, bit by bit.
unfoldable pub root : ℕ → ℕ → ℕ → ℕ
root nat_zero acc n = acc
root (suc k) acc n = let c = acc + 2 ^ k in root k (if leb (c * c) n then c else acc) n

abbrev pub square_root : Fixed → Fixed
square_root (some (pos a)) = some (pos (root 64 0 (a * scale)))
square_root _ = none

unfoldable pub add_all : List Fixed → Fixed
unfolding ◌+ℤ◌
add_all [] = some (pos 0)
add_all (x ∷ xs) = lift ◌+ℤ◌ x (add_all xs)

unfoldable pub power : ℕ → Fixed → Fixed
unfolding times
power nat_zero a = some (pos scale)
power (suc n) a = lift (signed times) a (power n a)

instance abbrev pub fixed_float : Float Fixed
fixed_float = record {
  lit = λ m e. some (pos (m * scale / 10 ^ e));
  add = lift ◌+ℤ◌;
  sub = lift ◌-ℤ◌;
  mul = lift (signed times);
  div = divide;
  abs = elim [ some a ↦ some (pos (abs_ℤ a)) | none ↦ none ];
  sqrt = square_root;
  pow = λ a n. power n a;
  log = λ x.
      divide (lift (signed times) (some (pos (2 * scale))) (lift ◌-ℤ◌ x (some (pos scale))))
        (lift ◌+ℤ◌ x (some (pos scale)));
  lt = compare_numbers ltb_ℤ;
  le = compare_numbers leb_ℤ;
  is_nan = elim [ some a ↦ false | none ↦ true ];
  is_finite = elim [ some a ↦ true | none ↦ false ];
  nan = none;
  sum = add_all;
}
