-- ===== src/Portfolio/Start.antt =====
-- `main` of portfolio_engine/main.py: the connection, the waits and then the loop.
pub mod Waits
pub mod Pace
use mathlib.Core.Option
use portfolio_engine.Prelude.{
  ℕ, String, Bool, Option, none, some, List, [], ◌&&◌, ◌>>=◌, if◌then◌else◌,
}
use portfolio_engine.Float.{Float}
use portfolio_engine.Database.{PriceRow, ForecastRow}
use portfolio_engine.Database.Schema.{Catalog}
use portfolio_engine.Tables.{portfolio_engine_program}
use portfolio_engine.Tables.Begin.{begins}
use portfolio_engine.Settings.{Text, parse_address, is_read}
use portfolio_engine.Portfolio.Numpy.{Numpy}
use portfolio_engine.Portfolio.Estimates.{Pandas}
use portfolio_engine.Portfolio.Schedule.{next_rebalance_from}
use portfolio_engine.Portfolio.Ready.{
  BackfillRow, wait_for_backfill, wait_for_prices, wait_for_forecasts,
}
use portfolio_engine.Portfolio.Rebalance.{Config, World}
use portfolio_engine.Portfolio.Loop.{Service, Round, serve}

-- What the start meets: the attempts to connect; the catalogue in which `ensure_tables` makes the
-- tables; the setting REDIS_ADDR and which texts Python's `int` takes; the polls of the three waits;
-- and the clock and the tables after them.
pub record Boot (F C : Type 0) : Type 0 where
  pub attempt : ℕ → Option C
  pub catalog : Catalog
  pub redis_addr : Text
  pub is_int : Text → Bool
  pub backfills : List (List BackfillRow)
  pub prices : List (List (PriceRow F))
  pub forecasts : List (List (ForecastRow F))
  pub now : ℕ
  pub world : World F

-- The sleeps of the three waits.
pub record Sleeps : Type 0 where
  pub for_backfill : ℕ
  pub for_prices : ℕ
  pub for_forecasts : ℕ

-- An exception has ended the process; it still waits; or it is in its loop.
pub data Process (F : Type 0) : Type 0 where
  ended : Process F
  waiting : Process F
  serving : Sleeps → Service F → Process F

-- The service as the loop starts.
abbrev pub first_service :
    {F C : Type 0} → (rebalance_hour rebalance_minute : ℕ) → Boot F C → Service F
first_service rebalance_hour rebalance_minute b = record {
  next_rebalance_at = next_rebalance_from rebalance_hour rebalance_minute b.now;
  world = b.world;
}

-- The three waits, one after the other.
unfoldable pub waits : {F C : Type 0} → Config F → (min_price_rows : ℕ) → Boot F C → Option Sleeps
waits c min_price_rows b = do
  x ← wait_for_backfill c.symbols b.backfills
  y ← wait_for_prices c.symbols min_price_rows b.prices
  z ← wait_for_forecasts c.symbols b.forecasts
  some record { for_backfill = x; for_prices = y; for_forecasts = z }

module _ {F C : Type 0} ⦃f : Float F⦄ (np : Numpy F) (pd : Pandas F) (c : Config F)
    (rebalance_hour rebalance_minute min_price_rows : ℕ) where
  unfoldable pub wait_and_serve : Boot F C → List (Round F) → Process F
  unfolding waits
  wait_and_serve b rounds =
      let first = first_service rebalance_hour rebalance_minute b in
      elim (waits c min_price_rows b) [
        | none ↦ waiting
        | some x ↦ serving x (serve np pd c rebalance_hour rebalance_minute rounds first)
      ]

  -- The client of Redis connects only when it is used.
  unfoldable pub main : Boot F C → List (Round F) → Process F
  unfolding wait_and_serve
  main b rounds =
      let served = wait_and_serve b rounds in
      if begins b.attempt portfolio_engine_program b.catalog
        && is_read (parse_address b.is_int b.redis_addr)
      then served
      else ended
