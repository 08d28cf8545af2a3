-- ===== src/Settings/Split.antt =====
-- `split` and the join that undoes it.
use mathlib.Core.Path.{ap₂}
use portfolio_engine.Prelude.{
  ℕ, ◌≡◌, refl, sym, ap, ◌∙◌, inl, inr, false, Bool-cases, List, [], ◌∷◌, ◌++◌, All, arith, ◌==◌,
}
use portfolio_engine.Settings.{Text, add_first, split}

-- `",".join(parts)`
abbrev pub join : ℕ → List Text → Text
join sep [] = []
join sep (p ∷ []) = p
join sep (p ∷ q ∷ ps) = p ++ sep ∷ join sep (q ∷ ps)

abbrev pub Lacks : ℕ → Text → Type 0
Lacks sep = All (λ c. (c == sep) ≡ false)

split-append : (sep : ℕ) (p t : Text) → Lacks sep p → split sep (p ++ sep ∷ t) ≡ p ∷ split sep t
unfolding split
split-append sep [] t h = ground arith
split-append sep (c ∷ p) t h = rw (h.0) (ap (add_first c) (split-append sep p t h.1))

split_part : (sep : ℕ) (p : Text) → Lacks sep p → split sep p ≡ p ∷ []
unfolding split
split_part sep [] h = refl
split_part sep (c ∷ p) h = rw (h.0) (ap (add_first c) (split_part sep p h.1))

pub split-join :
    (sep : ℕ) (p : Text) (ps : List Text)
    → All (Lacks sep) (p ∷ ps)
    → split sep (join sep (p ∷ ps)) ≡ p ∷ ps
split-join sep p [] h = split_part sep p h.0
split-join sep p (q ∷ ps) h =
    split-append sep p (join sep (q ∷ ps)) h.0 ∙ ap (λ l. p ∷ l) (split-join sep q ps h.1)

split_cons : (sep : ℕ) (t : Text) → (q : Text) × (qs : List Text) × (split sep t ≡ q ∷ qs)
unfolding split
split_cons sep [] = ([], [], refl)
split_cons sep (c ∷ t) =
    let (q, qs, e) = split_cons sep t in
    elim (Bool-cases (c == sep)) [
      | inl same ↦ ([], split sep t, rw same)
      | inr other ↦ (c ∷ q, qs, rw (other, e))
    ]

add_first-Lacks :
    (sep c : ℕ) (ps : List Text)
    → (c == sep) ≡ false
    → All (Lacks sep) ps
    → All (Lacks sep) (add_first c ps)
add_first-Lacks sep c [] e h = ((e, tt), tt)
add_first-Lacks sep c (p ∷ ps) e h = ((e, h.0), h.1)

pub split-Lacks : (sep : ℕ) (t : Text) → All (Lacks sep) (split sep t)
unfolding split
split-Lacks sep [] = (tt, tt)
split-Lacks sep (c ∷ t) = elim (Bool-cases (c == sep)) [
  | inl e ↦ rw e (tt, split-Lacks sep t)
  | inr e ↦ rw e (add_first-Lacks sep c (split sep t) e (split-Lacks sep t))
]

join-add_first :
    (sep c : ℕ) (q : Text) (qs : List Text)
    → join sep (add_first c (q ∷ qs)) ≡ c ∷ join sep (q ∷ qs)
join-add_first sep c q [] = refl
join-add_first sep c q (p ∷ qs) = refl

pub join-split : (sep : ℕ) (t : Text) → join sep (split sep t) ≡ t
unfolding split
join-split sep [] = refl
join-split sep (c ∷ t) =
    let (q, qs, e) = split_cons sep t in
    let rest : join sep (q ∷ qs) ≡ t = ap (join sep) (sym e) ∙ join-split sep t in
    elim (Bool-cases (c == sep)) [
      | inl same ↦
          let is : c ≡ sep = ground arith in rw (same, e) (ap₂ (λ x y. x ∷ y) (sym is) rest)
      | inr other ↦ rw (other, e) (join-add_first sep c q qs ∙ ap (λ y. c ∷ y) rest)
    ]
