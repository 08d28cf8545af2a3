-- ===== src/Portfolio/Pnl/Bounds.antt =====
-- Turnover, fees and equity of `compute_portfolio_pnl`.
use portfolio_engine.Prelude.{
  String, ◌≡◌, ap, ◌∙◌, Bool, true, false, Option, none, some, List, [], ◌∷◌, map, All, arith,
}
use portfolio_engine.Float.{Float, IsIeee, IsFinite, ◌+◌, ◌-◌, ◌*◌, ◌≼◌, lit, lt, zero, one}
use portfolio_engine.Dict.{Dict, get}
use portfolio_engine.Portfolio.Pnl.{
  Pnl, or_empty, or_previous, turnover_term, scaled, compute_portfolio_pnl,
}

module _ {F : Type 0} ⦃f : Float F⦄ where
  abbrev pub AllFinite : Dict F → Type 0
  AllFinite d = All (λ e. IsFinite e.1) d

  module _ (laws : IsIeee F) where
    open laws use {
      finite_number, le_trans, lit_nonneg, lit_finite, abs_nonneg, sub_number, scale_nonneg,
      lit_pos, sum_nonneg, sub_self, sub_zero, abs_zero, mul_zero, sum_zeros, sub_le, add_mono,
      mul_mono, le_of_lt,
    }

    get-IsFinite : (s : String) (d : Dict F) → AllFinite d → IsFinite (get zero s d)
    unfolding get
    get-IsFinite s [] h = lit_finite 0 0 (omega arith)
    get-IsFinite s ((k, v) ∷ d) h = ground (arith, get-IsFinite s d h.1)

    turnover_term_nonneg :
        (prev new : Dict F) (s : String)
        → AllFinite prev
        → AllFinite new
        → zero ≼ turnover_term prev new s
    turnover_term_nonneg prev new s hp hn =
        abs_nonneg _
          (sub_number _ _ (get-IsFinite s new hn) (finite_number _ (get-IsFinite s prev hp)))

    l1_nonneg :
        (prev new : Dict F) (symbols : List String)
        → AllFinite prev
        → AllFinite new
        → All (λ x. zero ≼ x) (map (turnover_term prev new) symbols)
    l1_nonneg prev new [] hp hn = tt
    l1_nonneg prev new (s ∷ symbols) hp hn =
        (turnover_term_nonneg prev new s hp hn, l1_nonneg prev new symbols hp hn)

    l1_zeros :
        (prev new : Dict F) (symbols : List String)
        → new ≡ prev
        → AllFinite prev
        → All (λ x. x ≡ zero) (map (turnover_term prev new) symbols)
    l1_zeros prev new [] e hp = tt
    l1_zeros prev new (s ∷ symbols) e hp =
        (rw (e, sub_self _ (get-IsFinite s prev hp)) abs_zero, l1_zeros prev new symbols e hp)

    half-IsFinite : IsFinite (lit {F = F} 5 1)
    half-IsFinite = lit_finite 5 1 (omega arith)

    half_pos : lt zero (lit {F = F} 5 1) ≡ true
    half_pos = lit_pos 5 1 (omega arith) (omega arith)

    scaled_nonneg : (half : Bool) (x : F) → zero ≼ x → zero ≼ scaled half x
    scaled_nonneg true x h = scale_nonneg _ _ half-IsFinite half_pos h
    scaled_nonneg false x h = h

    scaled-zero : (half : Bool) (x : F) → x ≡ zero → scaled half x ≡ zero
    scaled-zero true x h = rw h (mul_zero _ half-IsFinite half_pos)
    scaled-zero false x h = h

    module _ (iterate : List String → List String) (prev returns : Option (Dict F))
        (equity : Option F) (new : Option (Dict F)) (rate cumulative : F) (half : Bool) where
      abbrev pub result : Pnl F
      result = compute_portfolio_pnl iterate prev returns equity new rate cumulative half

      abbrev before : F
      before = elim equity [ none ↦ one | some e ↦ e ]

      -- Under the laws of IEEE 754: if all weights before and after are finite and the fee rate
      -- is finite and positive, the turnover and the transaction cost are at least 0, and not
      -- NaN.
      turnover_nonneg :
          AllFinite (or_empty prev)
          → AllFinite (or_previous new (or_empty prev))
          → IsFinite rate
          → lt zero rate ≡ true
          → (zero ≼ result.turnover) × (zero ≼ result.transaction_cost)
      unfolding compute_portfolio_pnl
      turnover_nonneg hp hn hr pr =
          let t = scaled_nonneg half _ (sum_nonneg _ (l1_nonneg _ _ _ hp hn)) in
          (t, scale_nonneg _ _ hr pr t)

      -- Under the laws of IEEE 754: if the weights after are those before, all of them are finite
      -- and the fee rate is finite and positive, then turnover and cost are 0, the net return is
      -- the gross return, and the equity is the equity before times 1 plus the gross return.
      hold_costs_nothing :
          or_previous new (or_empty prev) ≡ or_empty prev
          → AllFinite (or_empty prev)
          → IsFinite rate
          → lt zero rate ≡ true
          → (result.turnover ≡ zero)
            × (result.transaction_cost ≡ zero)
            × (result.net_return ≡ result.gross_return)
            × (result.equity ≡ before * (one + result.gross_return))
      unfolding compute_portfolio_pnl
      hold_costs_nothing same hp hr pr =
          let t = scaled-zero half _ (sum_zeros _ (l1_zeros _ _ _ same hp)) in
          let c = ap (λ x. rate * x) t ∙ mul_zero rate hr pr in
          let n = ap (λ x. result.gross_return - x) c ∙ sub_zero _ in
          (t, c, n, ap (λ x. before * (one + x)) n)

      -- Under the laws of IEEE 754: if the weights, the fee rate (positive), the equity before
      -- (at least 0), the gross return and 1 plus each return are finite, the equity is at most
      -- the equity before times 1 plus the gross return.
      pub fee_lowers_equity :
          AllFinite (or_empty prev)
          → AllFinite (or_previous new (or_empty prev))
          → IsFinite rate
          → lt zero rate ≡ true
          → IsFinite before
          → zero ≼ before
          → IsFinite result.gross_return
          → IsFinite (one + result.gross_return)
          → IsFinite (one + result.net_return)
          → result.equity ≼ before * (one + result.gross_return)
      unfolding compute_portfolio_pnl
      fee_lowers_equity hp hn hr pr hb pb hg h1 h2 = mul_mono _ _ _ hb h2 h1 pb (
          add_mono _ _ _ (lit_finite 1 0 (omega arith))
            (sub_le _ _ hg (turnover_nonneg hp hn hr pr).1))
