-- ===== src/Portfolio/Allocator/Projection.antt =====
-- The projection keeps weights long-only, whatever its loop does.
use Prim.Native.Nat.{zero as nat_zero}
use portfolio_engine.Prelude.{
  ℕ, suc, ◌≤◌, ◌<◌, ◌^◌, ◌≡◌, refl, ◌∙◌, true, false, some, List, [], ◌∷◌, map, length, length-map,
  length-replicate, replicate, All, All-imp, All-map, arith, ◌==◌, if◌then◌else◌, if-case,
}
use portfolio_engine.Float.{Float, IsIeee, IsFinite, ◌≼◌, ◌+◌, ◌-◌, ◌/◌, lit, lt, is_nan, zero, one}
use portfolio_engine.Portfolio.Numpy.{Numpy, IsNumpy}
use portfolio_engine.Portfolio.Allocator.{
  clip_all, is_free, free_count, shift_free, rounds, equal_weights, normalize, project_weights,
}

module _ {F : Type 0} ⦃f : Float F⦄ where
  -- Between 0 and the cap.
  abbrev pub InBox : F → List F → Type 0
  InBox cap v = All (λ x. (zero ≼ x) × (x ≼ cap)) v

  -- As many weights as asked, none of them negative or NaN.
  abbrev pub IsLongOnly : ℕ → List F → Type 0
  IsLongOnly n w = (length w ≡ n) × All (λ x. zero ≼ x) w

  module _ (np : Numpy F) (laws : IsIeee F) (np_laws : IsNumpy F np) (cap : F)
      (cap_finite : IsFinite cap) (cap_nonneg : zero ≼ cap) where
    open laws use {
      finite_number, le_numbers, le_of_lt, le_trans, lt_of_not_le, lit_nonneg, lit_finite, lit_pos,
      add_number, sub_number, div_number, div_nonneg, finite_between, recip_finite, lt_of_lt_of_le,
    }
    open np_laws use {array_sum_nonneg, clip_bounds}

    clip_all-InBox : (ws : List F) → All (λ x. is_nan x ≡ false) ws → InBox cap (clip_all np cap ws)
    unfolding clip_all
    clip_all-InBox [] h = tt
    clip_all-InBox (x ∷ ws) h = (clip_bounds x zero cap h.0 cap_nonneg, clip_all-InBox ws h.1)

    shifted_number :
        (delta x : F)
        → is_nan delta ≡ false
        → IsFinite x
        → is_nan (if is_free cap x then x + delta else x) ≡ false
    shifted_number delta x h k =
        if-case {A = F} (λ y. is_nan y ≡ false) _ (λ _. add_number _ _ k h) (λ _. finite_number _ k)

    shift_free-InBox :
        (delta : F) (v : List F)
        → is_nan delta ≡ false
        → InBox cap v
        → InBox cap (shift_free np cap delta v)
    unfolding shift_free
    shift_free-InBox delta [] h b = tt
    shift_free-InBox delta (x ∷ v) h b = (
      clip_bounds _ zero cap
          (shifted_number delta x h (finite_between x cap b.0.0 b.0.1 cap_finite)) cap_nonneg,
      shift_free-InBox delta v h b.1,
    )

    free_count-le : (v : List F) → free_count cap v ≤ length v
    unfolding free_count
    free_count-le [] = omega arith
    free_count-le (x ∷ v) = ground (arith, free_count-le v)

    sum_number : (v : List F) → InBox cap v → zero ≼ np.array_sum v
    sum_number v b = array_sum_nonneg v (All-imp v (λ x h. h.0) b)

    length_pos : (n : ℕ) → n ≤ 2 ^ 53 → (n == 0) ≡ false → lt zero (lit {F = F} n 0) ≡ true
    length_pos n h e = lit_pos n 0 (ground arith) (omega arith)

    delta_number :
        (v : List F)
        → InBox cap v
        → length v ≤ 2 ^ 53
        → (free_count cap v == 0) ≡ false
        → is_nan ((one - np.array_sum v) / lit (free_count cap v) 0) ≡ false
    delta_number v b l e =
        let few : free_count cap v ≤ 2 ^ 53 = omega (arith, free_count-le v) in
        div_number _ _
          (sub_number _ _ (lit_finite 1 0 (omega arith)) (le_numbers _ _ (sum_number v b)).1)
          (lit_finite _ 0 few) (length_pos _ few e)

    abbrev Stays : List F → List F → Type 0
    Stays v w = InBox cap w × (length w ≡ length v)

    rounds-InBox :
        (k : ℕ) (v : List F)
        → length v ≤ 2 ^ 53
        → InBox cap v
        → InBox cap (rounds np k cap v) × (length (rounds np k cap v) ≡ length v)
    unfolding rounds shift_free
    rounds-InBox nat_zero v l b = (b, refl)
    rounds-InBox (suc k) v l b =
        let stay : Stays v v = (b, refl) in
        if-case (Stays v) _ (λ _. stay)
          λ _.
            if-case (Stays v) _ (λ _. stay)
              λ some_free.
                let delta = (one - np.array_sum v) / lit (free_count cap v) 0 in
                let same : length (shift_free np cap delta v) ≡ length v = length-map _ v in
                let (inside, n) =
                  rounds-InBox k (shift_free np cap delta v) (omega arith)
                    (shift_free-InBox delta v (delta_number v b l some_free) b) in
                (inside, n ∙ same)

    replicate_nonneg : (n : ℕ) (x : F) → zero ≼ x → All (λ y. zero ≼ y) (replicate n x)
    replicate_nonneg nat_zero x h = tt
    replicate_nonneg (suc n) x h = (h, replicate_nonneg n x h)

    pub equal_weights-IsLongOnly :
        (n : ℕ) → 0 < n → n ≤ 2 ^ 53 → (w : List F) × (equal_weights n ≡ some w) × IsLongOnly n w
    unfolding equal_weights
    equal_weights-IsLongOnly n p l =
        if-case (λ o. (w : List F) × (o ≡ some w) × IsLongOnly n w) _ (λ e. absurd (ground arith))
          λ e. (
            _,
            refl,
            (
              length-replicate n _,
              replicate_nonneg n _ (
                  div_nonneg _ _ (lit_finite 1 0 (omega arith)) (lit_nonneg 1 0)
                    (length_pos n l e)),
            ),
          )

    normalize-IsLongOnly :
        (v : List F)
        → 0 < length v
        → length v ≤ 2 ^ 53
        → InBox cap v
        → (w : List F) × (normalize np v ≡ some w) × IsLongOnly (length v) w
    unfolding normalize
    normalize-IsLongOnly v p l b =
        if-case (λ o. (w : List F) × (o ≡ some w) × IsLongOnly (length v) w) _
          (λ _. equal_weights-IsLongOnly (length v) p l)
          λ positive.
            let total_number = (le_numbers _ _ (sum_number v b)).1 in
            let zero_number = (le_numbers _ _ (sum_number v b)).0 in
            (
              map (λ x. x / np.array_sum v) v,
              refl,
              (
                length-map _ v,
                All-map _ _ v (
                    All-imp v
                      (λ x h.
                        div_nonneg _ _ (finite_between x cap h.0 h.1 cap_finite) h.0
                          (lt_of_not_le _ _ total_number zero_number positive))
                      b),
              ),
            )

    -- Under the laws of IEEE 754 and of numpy, with a finite cap of at least 0: the projection of
    -- from 1 to 2 ^ 53 weights, none of them NaN, succeeds after any number of rounds with as
    -- many weights, each at least 0 and not NaN.
    pub project_weights-IsLongOnly :
        (ws : List F) (max_iter : ℕ)
        → 0 < length ws
        → length ws ≤ 2 ^ 53
        → All (λ x. is_nan x ≡ false) ws
        → (w : List F) × (project_weights np ws cap max_iter ≡ some w) × IsLongOnly (length ws) w
    unfolding project_weights clip_all
    project_weights-IsLongOnly ws max_iter p l h =
        let b = clip_all-InBox ws h in
        let same : length (clip_all np cap ws) ≡ length ws = length-map _ ws in
        if-case (λ o. (w : List F) × (o ≡ some w) × IsLongOnly (length ws) w) _
          (λ close. (clip_all np cap ws, refl, (same, All-imp (clip_all np cap ws) (λ x q. q.0) b)))
          λ far.
            let (inside, n) = rounds-InBox max_iter (clip_all np cap ws) (omega arith) b in
            let (w, done, (m, q)) =
              normalize-IsLongOnly (rounds np max_iter cap (clip_all np cap ws)) (omega arith)
                (omega arith) inside in
            (w, done, (m ∙ n ∙ same, q))
