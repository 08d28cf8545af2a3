-- ===== src/Portfolio/Tests/Start.antt =====
-- The theorems on the start of the service, applied to one whose second attempt to connect works.
use portfolio_engine.Prelude.{
  ℕ, ◌+◌, ◌≡◌, refl, ◌↔◌, true, none, some, [], ◌∷◌, ◌==◌, arith, map, if◌then◌else◌,
}
use portfolio_engine.Float.Fixed.{Fixed, fixed_float}
use portfolio_engine.Dict.{contains, from_keys, keys, lookup}
use portfolio_engine.Database.Schema.{execute_all}
use portfolio_engine.Tables.{ensure_tables, statements_of}
use portfolio_engine.Tables.Begin.{begins}
use portfolio_engine.Settings.{parse_address}
use portfolio_engine.Database.Connect.{connect}
use portfolio_engine.Portfolio.Schedule.{day}
use portfolio_engine.Portfolio.Ready.{wait_for_backfill, wait_for_prices, wait_for_forecasts}
use portfolio_engine.Portfolio.Loop.{Service, serve}
use portfolio_engine.Portfolio.Start.{Boot, Sleeps, serving, first_service, main}
use portfolio_engine.Portfolio.Start.Waits.{IsUp, IsWaited, main_serves_iff}
use portfolio_engine.Portfolio.Tests.Arrays.{arrays, frames}
use portfolio_engine.Portfolio.Tests.Data.{symbols, prices, forecasts, config, world, rounds}

abbrev pub boot : Boot Fixed ℕ
boot = record {
  attempt = λ k. if k == 1 then none else some k;
  catalog = record { tables = []; indexes = [] };
  redis_addr = b'r' ∷ b':' ∷ b'6' ∷ [];
  is_int = λ text. true;
  backfills = [] ∷ map (λ s. record { symbol = s; status = "done" }) symbols ∷ [];
  prices = [] ∷ prices ∷ [];
  forecasts = forecasts ∷ [];
  now = day + 30;
  world = world;
}

abbrev pub sleeps : Sleeps
sleeps = record { for_backfill = 1; for_prices = 1; for_forecasts = 0 }

abbrev served : Service Fixed
served = serve arrays frames config 0 0 rounds (first_service 0 0 boot)

started : main arrays frames config 0 0 2 boot rounds ≡ serving sleeps served
unfolding main begins ensure_tables execute_all statements_of lookup keys parse_address connect
    wait_for_backfill contains wait_for_prices from_keys wait_for_forecasts
started = refl

main_serves_iff_example :
    (main arrays frames config 0 0 2 boot rounds ≡ serving sleeps served)
    ↔ (IsUp boot × IsWaited config 2 boot sleeps × (served ≡ served))
main_serves_iff_example =
    main_serves_iff arrays frames config 0 0 2 boot rounds sleeps served (omega arith)
