-- ===== src/Prelude/Pigeonhole.antt =====
-- A list without repetitions that is within another is not longer.
use Prim.Native.Nat.{ℕ, zero, suc, ◌≤◌}
use mathlib.Core.Path.{◌≡◌, refl, sym, ◌∙◌}
use mathlib.Core.Logic.{◌≢◌, inl, inr}
use mathlib.Core.List.{List, [], ◌∷◌}
use native.Mathlib.Omega.{arith}
use portfolio_engine.Prelude.Lists.{length, drop, All, Has}

module _ {A : Type 0} where
  -- No two elements are equal.
  abbrev pub IsNodup : List A → Type 0
  IsNodup [] = Unit
  IsNodup (x ∷ xs) = All (λ y. x ≢ y) xs × IsNodup xs

  remove : (a : A) (xs : List A) → Has a xs → List A
  remove a [] h = []
  remove a (x ∷ xs) (inl e) = xs
  remove a (x ∷ xs) (inr h) = x ∷ remove a xs h

  length-remove : (a : A) (xs : List A) (h : Has a xs) → suc (length (remove a xs h)) ≡ length xs
  unfolding remove
  length-remove a [] h = elim h [ ]
  length-remove a (x ∷ xs) (inl e) = refl
  length-remove a (x ∷ xs) (inr h) = omega (arith, length-remove a xs h)

  Has-remove : (a b : A) (xs : List A) (h : Has a xs) → a ≢ b → Has b xs → Has b (remove a xs h)
  unfolding remove
  Has-remove a b [] h other k = elim h [ ]
  Has-remove a b (x ∷ xs) (inl e) other (inl e') = absurd (other (sym e ∙ e'))
  Has-remove a b (x ∷ xs) (inl e) other (inr k) = k
  Has-remove a b (x ∷ xs) (inr h) other (inl e') = inl e'
  Has-remove a b (x ∷ xs) (inr h) other (inr k) = inr (Has-remove a b xs h other k)

  All-Has-remove :
      (a : A) (ys xs : List A) (h : Has a xs)
      → All (λ y. a ≢ y) ys
      → All (λ y. Has y xs) ys
      → All (λ y. Has y (remove a xs h)) ys
  All-Has-remove a [] xs h other k = tt
  All-Has-remove a (y ∷ ys) xs h other k =
      (Has-remove a y xs h other.0 k.0, All-Has-remove a ys xs h other.1 k.1)

  pub length-le_of_Has :
      (ys xs : List A) → IsNodup ys → All (λ y. Has y xs) ys → length ys ≤ length xs
  length-le_of_Has [] xs nodup h = omega arith
  length-le_of_Has (y ∷ ys) xs nodup h =
      let fewer =
        length-le_of_Has ys (remove y xs h.0) nodup.1 (All-Has-remove y ys xs h.0 nodup.0 h.1) in
      omega (arith, fewer, length-remove y xs h.0)

  pub IsNodup-drop : (n : ℕ) (xs : List A) → IsNodup xs → IsNodup (drop n xs)
  IsNodup-drop zero xs h = h
  IsNodup-drop (suc n) [] h = h
  IsNodup-drop (suc n) (x ∷ xs) h = IsNodup-drop n xs h.1
