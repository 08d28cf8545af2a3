-- ===== src/Portfolio/Ready/First.antt =====
-- The waits return at the first poll that has what they wait for.
use mathlib.Core.Option
use mathlib.Core.Option.{some-injective}
use mathlib.Core.Path.{subst}
use Prim.Native.Nat.{zero as nat_zero}
use portfolio_engine.Prelude.{
  ℕ, suc, ◌≤◌, ◌≡◌, refl, sym, ap, ◌↔◌, inl, inr, String, Bool, true, false, ◌||◌, Bool-cases,
  Option, none, some, List, [], ◌∷◌, take, get_elem?, All, arith,
}
use portfolio_engine.Database.{PriceRow, ForecastRow}
use portfolio_engine.Portfolio.Forecasts.{is_given}
use portfolio_engine.Portfolio.Ready.{wait, wait_for_prices, wait_for_forecasts}
use portfolio_engine.Portfolio.Ready.Counted.{HasEnough, is_ready_iff}

module _ {T : Type 0} where
  -- The `k`-th poll passes the test, and none before it does.
  abbrev pub IsFirst : (T → Type 0) → ℕ → List T → Type 0
  IsFirst P k polls =
      All (λ t. ¬ (P t)) (take k polls) × (t : T) × (get_elem? polls k ≡ some t) × P t

  module _ (is_done : T → Bool) (P : T → Type 0)
      (done_iff : (t : T) → (is_done t ≡ true) ↔ P t) where
    not_done : (t : T) → is_done t ≡ false → ¬ (P t)
    not_done t e h = ground (arith, (done_iff t).1 h)

    after_false :
        (t : T) (rest : Option ℕ) (polls : List T) (k : ℕ)
        → is_done t ≡ false
        → ((j : ℕ) → (rest ≡ some j) ↔ IsFirst P j polls)
        → (Option.map suc rest ≡ some k) ↔ IsFirst P k (t ∷ polls)
    after_false t none polls nat_zero e ih = (
      λ h. absurd (ground arith),
      λ (_, u, same, q). absurd (not_done t e (subst P (sym (some-injective _ _ same)) q)),
    )
    after_false t (some j) polls nat_zero e ih = (
      λ h. absurd (ground arith),
      λ (_, u, same, q). absurd (not_done t e (subst P (sym (some-injective _ _ same)) q)),
    )
    after_false t none polls (suc k) e ih = (
      λ h. absurd (ground arith),
      λ (n, u, same, q). absurd (ground (arith, (ih k).1 (n.1, u, same, q))),
    )
    after_false t (some j) polls (suc k) e ih = (
      λ h. let (n, u, same, q) = (ih k).0 (ground arith) in ((not_done t e, n), u, same, q),
      λ (n, u, same, q). ap (Option.map suc) ((ih k).1 (n.1, u, same, q)),
    )

    after_true :
        (t : T) (polls : List T) (k : ℕ)
        → is_done t ≡ true
        → (some 0 ≡ some k) ↔ IsFirst P k (t ∷ polls)
    after_true t polls nat_zero e = (λ _. (tt, t, refl, (done_iff t).0 e), λ _. refl)
    after_true t polls (suc k) e =
        (λ h. absurd (ground arith), λ (n, u, same, q). absurd (n.0 ((done_iff t).0 e)))

    pub wait-IsFirst : (polls : List T) (k : ℕ) → (wait is_done polls ≡ some k) ↔ IsFirst P k polls
    unfolding wait
    wait-IsFirst [] k = (λ h. absurd (ground arith), λ (_, u, same, _). absurd (ground arith))
    wait-IsFirst (t ∷ polls) k = elim (Bool-cases (is_done t)) [
      | inl e ↦ rw e (after_true t polls k e)
      | inr e ↦ rw e (after_false t (wait is_done polls) polls k e (λ j. wait-IsFirst polls j))
    ]

module _ {F : Type 0} where
  -- For a minimum of at least 1, the wait for prices returns after `k` sleeps exactly when the
  -- poll after them finds that many price rows of every symbol, and no poll before it did.
  pub wait_for_prices-IsFirst :
      (symbols : List String) (min_rows : ℕ) (polls : List (List (PriceRow F))) (k : ℕ)
      → 1 ≤ min_rows
      → (wait_for_prices symbols min_rows polls ≡ some k)
        ↔ IsFirst (HasEnough (λ r. r.symbol) (λ r. true) min_rows symbols) k polls
  unfolding wait_for_prices
  wait_for_prices-IsFirst symbols min_rows polls k pos =
      wait-IsFirst _ _
        (λ rows. is_ready_iff (λ (r : PriceRow F). r.symbol) (λ r. true) min_rows symbols rows pos)
        polls k

  abbrev pub has_vol : ForecastRow F → Bool
  has_vol r = is_given r.garch_vol || is_given r.xgb_vol

  -- The wait for forecasts returns after `k` sleeps exactly when the poll after them finds a
  -- forecast with one of the two volatilities for every symbol, and no poll before it did.
  pub wait_for_forecasts-IsFirst :
      (symbols : List String) (polls : List (List (ForecastRow F))) (k : ℕ)
      → (wait_for_forecasts symbols polls ≡ some k)
        ↔ IsFirst (HasEnough (λ r. r.symbol) has_vol 1 symbols) k polls
  unfolding wait_for_forecasts
  wait_for_forecasts-IsFirst symbols polls k =
      wait-IsFirst _ _
        (λ rows.
          is_ready_iff (λ (r : ForecastRow F). r.symbol) has_vol 1 symbols rows (omega arith))
        polls k
