-- ===== src/Portfolio/Loop.antt =====
-- The loop of `main` in portfolio_engine/main.py.
pub mod Pace
pub mod Solvency
pub mod Books
pub mod Origin
use portfolio_engine.Prelude.{ℕ, Bool, List, [], ◌∷◌, leb, if◌then◌else◌}
use portfolio_engine.Float.{Float}
use portfolio_engine.Portfolio.Numpy.{Numpy}
use portfolio_engine.Portfolio.Estimates.{Pandas}
use portfolio_engine.Portfolio.Schedule.{next_rebalance_from}
use portfolio_engine.Portfolio.Rebalance.{Config, World, Env, run_rebalance}

-- The loop's variable, and all that the service changes.
pub record Service (F : Type 0) : Type 0 where
  pub next_rebalance_at : ℕ
  pub world : World F

-- One round: when the clock is read, what a run then meets, and the clock after it.
pub record Round (F : Type 0) : Type 0 where
  pub now : ℕ
  pub env : Env F
  pub after : ℕ

module _ {F : Type 0} ⦃f : Float F⦄ (np : Numpy F) (pd : Pandas F) (c : Config F)
    (rebalance_hour rebalance_minute : ℕ) where
  -- The body of the loop up to the sleep. An exception of the run is logged, and the schedule goes
  -- on as after a success.
  unfoldable pub check : Round F → Service F → Service F
  check r s =
      if leb s.next_rebalance_at r.now
      then record {
        next_rebalance_at = next_rebalance_from rebalance_hour rebalance_minute r.after;
        world = (run_rebalance np pd c r.env s.world).1;
      }
      else s

  -- `while True`, for the rounds that come.
  unfoldable pub serve : List (Round F) → Service F → Service F
  unfolding check
  serve [] s = s
  serve (r ∷ rounds) s = serve rounds (check r s)
