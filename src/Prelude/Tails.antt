-- ===== src/Prelude/Tails.antt =====
-- The end of a list that grows, which is cut to a number of elements.
use Prim.Native.Nat.{ℕ, ◌-◌, ◌≤◌, ◌<◌}
use mathlib.Core.Path.{◌≡◌, refl, sym, ap, ◌∙◌, subst}
use mathlib.Core.Logic.{◌⊎◌, inl, inr}
use mathlib.Core.List.{List, [], ◌∷◌, ◌++◌, append_assoc}
use native.Mathlib.Omega.{arith}
use portfolio_engine.Prelude.Lists.{length, length-append, drop}
use portfolio_engine.Prelude.Tests.{leb, leb→le, Bool-cases}

module _ {A : Type 0} where
  -- The last at most `n` of a history.
  abbrev pub IsTail : ℕ → List A → List A → Type 0
  IsTail n h b = (zs : List A) × (h ≡ zs ++ b) × (length b ≤ n) × ((zs ≡ []) ⊎ (length b ≡ n))

  full-IsTail :
      (n : ℕ) (h zs b : List A) (c : A)
      → 0 < n
      → h ≡ zs ++ b
      → length b ≡ n
      → IsTail n (h ++ c ∷ []) (drop (length (b ++ c ∷ []) - n) (b ++ c ∷ []))
  full-IsTail n h zs [] c pos e full = absurd (omega arith)
  full-IsTail n h zs (x ∷ b) c pos e full =
      let one : 1 ≡ length (x ∷ b ++ c ∷ []) - n = omega (arith, length-append b (c ∷ [])) in
      subst (λ k. IsTail n (h ++ c ∷ []) (drop k (x ∷ b ++ c ∷ []))) one
        (
          zs ++ x ∷ [],
          ap (λ y. y ++ c ∷ []) e
              ∙ append_assoc zs (x ∷ b) (c ∷ [])
              ∙ sym (append_assoc zs (x ∷ []) (b ++ c ∷ [])),
          omega (arith, length-append b (c ∷ [])),
          inr (omega (arith, length-append b (c ∷ []))),
        )

  short-IsTail :
      (n : ℕ) (h b : List A) (c : A)
      → h ≡ b
      → length b < n
      → IsTail n (h ++ c ∷ []) (drop (length (b ++ c ∷ []) - n) (b ++ c ∷ []))
  short-IsTail n h b c e few =
      let none_over : 0 ≡ length (b ++ c ∷ []) - n = omega (arith, length-append b (c ∷ [])) in
      subst (λ k. IsTail n (h ++ c ∷ []) (drop k (b ++ c ∷ []))) none_over
        ([], ap (λ y. y ++ c ∷ []) e, omega (arith, length-append b (c ∷ [])), inl refl)

  pub drop-IsTail :
      (n : ℕ) (h b : List A) (c : A)
      → 0 < n
      → IsTail n h b
      → IsTail n (h ++ c ∷ []) (drop (length (b ++ c ∷ []) - n) (b ++ c ∷ []))
  drop-IsTail n h b c pos (zs, e, few, inr full) = full-IsTail n h zs b c pos e full
  drop-IsTail n h b c pos (zs, e, few, inl all) = elim (Bool-cases (leb n (length b))) [
    | inl full ↦ full-IsTail n h zs b c pos e (omega (arith, leb→le n (length b) full))
    | inr less ↦ short-IsTail n h b c (e ∙ ap (λ z. z ++ b) all) (ground arith)
  ]

  drop-append : (zs b : List A) → drop (length zs) (zs ++ b) ≡ b
  drop-append [] b = refl
  drop-append (z ∷ zs) b = drop-append zs b

  pub IsTail-eq : (n : ℕ) (h b : List A) → IsTail n h b → b ≡ drop (length h - n) h
  IsTail-eq n h b (zs, e, few, whole) =
      let longer = ap length e ∙ length-append zs b in
      let cut : length zs ≡ length h - n = elim whole [
        | inl none_left ↦ omega (arith, ap length none_left)
        | inr full ↦ omega arith
      ] in
      sym (drop-append zs b) ∙ ap (λ x. drop (length zs) x) (sym e) ∙ ap (λ k. drop k h) cut
