-- ===== src/Portfolio/Loop/Solvency.antt =====
-- The stored equities over the life of the service.
use portfolio_engine.Prelude.{ℕ, List, [], ◌∷◌, All, leb, if-case}
use portfolio_engine.Float.{Float, IsIeee}
use portfolio_engine.Database.{IsKeyed, time_key}
use portfolio_engine.Portfolio.States.History.{by_time}
use portfolio_engine.Portfolio.Numpy.{Numpy}
use portfolio_engine.Portfolio.Estimates.{Pandas}
use portfolio_engine.Portfolio.Rebalance.{Config}
use portfolio_engine.Portfolio.Rebalance.Ledger.{
  IsSolvent, run_rebalance-IsSolvent, run_rebalance-IsKeyed,
}
use portfolio_engine.Portfolio.Loop.{Service, Round, check, serve}

module _ {F : Type 0} ⦃f : Float F⦄ (np : Numpy F) (pd : Pandas F) (c : Config F) (h m : ℕ) where
  pub check-IsKeyed :
      (r : Round F) (s : Service F)
      → IsKeyed by_time s.world.states
      → IsKeyed by_time (check np pd c h m r s).world.states
  unfolding check
  check-IsKeyed r s k =
      if-case {A = Service F} (λ t. IsKeyed (by_time {F = F}) t.world.states)
        (leb s.next_rebalance_at r.now) (λ _. run_rebalance-IsKeyed np pd c r.env s.world k)
        (λ _. k)

module _ {F : Type 0} ⦃f : Float F⦄ (np : Numpy F) (pd : Pandas F) (c : Config F) (h m : ℕ)
    (laws : IsIeee F) where
  pub check-IsSolvent :
      (r : Round F) (s : Service F)
      → All IsSolvent s.world.states
      → All IsSolvent (check np pd c h m r s).world.states
  unfolding check
  check-IsSolvent r s k =
      if-case {A = Service F} (λ t. All (IsSolvent {F = F}) t.world.states)
        (leb s.next_rebalance_at r.now) (λ _. run_rebalance-IsSolvent np pd c r.env s.world laws k)
        (λ _. k)

  -- Under the laws of IEEE 754, from a table whose equities are all at least 0, and whatever the
  -- rounds bring (a calculation that fails, a refused insertion, failures of Redis, NaN in the
  -- prices): every state row has an equity, which is at least 0 and not NaN.
  pub serve-IsSolvent :
      (rounds : List (Round F)) (s : Service F)
      → All IsSolvent s.world.states
      → All IsSolvent (serve np pd c h m rounds s).world.states
  unfolding serve
  serve-IsSolvent [] s k = k
  serve-IsSolvent (r ∷ rounds) s k =
      serve-IsSolvent rounds (check np pd c h m r s) (check-IsSolvent r s k)
