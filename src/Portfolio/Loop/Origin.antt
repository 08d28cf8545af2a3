-- ===== src/Portfolio/Loop/Origin.antt =====
-- Where the rows in the table of the states come from.
use portfolio_engine.Prelude.{ℕ, ◌≡◌, ◌⊎◌, some, List, Has}
use portfolio_engine.Float.{Float}
use portfolio_engine.Dict.{Dict}
use portfolio_engine.Database.{StateRow}
use portfolio_engine.Portfolio.Numpy.{Numpy}
use portfolio_engine.Portfolio.Estimates.{Pandas}
use portfolio_engine.Portfolio.Rebalance.{Config, Payload, World, plan}
use portfolio_engine.Portfolio.Rebalance.Ledger.{row_of}
use portfolio_engine.Portfolio.Loop.{Round}

module _ {F : Type 0} ⦃f : Float F⦄ (np : Numpy F) (pd : Pandas F) (c : Config F) (h m : ℕ) where
  -- The row is what a calculation in the round gives, with the weights as the driver of the round
  -- stores them.
  abbrev pub IsFrom : Round F → StateRow F → Type 0
  IsFrom r row =
      (w : World F) × (p : Payload F) × (stored : Dict F) × (plan np pd c r.env w ≡ some p)
      × (r.env.adapt p.weights ≡ some stored)
      × (row ≡ row_of p stored)

  -- It was there, or one of the rounds has given it.
  abbrev pub IsKnown : List (StateRow F) → List (Round F) → StateRow F → Type 0
  IsKnown old rounds row = Has row old ⊎ ((r : Round F) × Has r rounds × IsFrom r row)
