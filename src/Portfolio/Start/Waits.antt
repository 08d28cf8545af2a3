-- ===== src/Portfolio/Start/Waits.antt =====
-- When the start of the service gets to its loop.

use mathlib.Core.Option.{some-injective}
use portfolio_engine.Prelude.{
  ℕ, ◌≤◌, ◌≡◌, refl, ap, ◌∙◌, ◌↔◌, Bool, true, false, Option, none, some, List, All, arith, ◌&&◌,
  ◌>>=◌, if◌then◌else◌,
}
use portfolio_engine.Float.{Float}
use portfolio_engine.Tables.{portfolio_engine_program}
use portfolio_engine.Tables.Begin.{begins, CanBegin, begins_iff}
use portfolio_engine.Settings.{Text, parse_address, is_read}
use portfolio_engine.Settings.Address.{IsAddress, is_read_iff}
use portfolio_engine.Portfolio.Numpy.{Numpy}
use portfolio_engine.Portfolio.Estimates.{Pandas}
use portfolio_engine.Portfolio.Ready.{wait_for_backfill, wait_for_prices, wait_for_forecasts}
use portfolio_engine.Portfolio.Ready.Counted.{HasEnough}
use portfolio_engine.Portfolio.Ready.First.{
  IsFirst, has_vol, wait_for_prices-IsFirst, wait_for_forecasts-IsFirst,
}
use portfolio_engine.Portfolio.Ready.Backfill.{IsMarked, wait_for_backfill-IsFirst}
use portfolio_engine.Portfolio.Rebalance.{Config}
use portfolio_engine.Portfolio.Loop.{Service, Round, serve}
use portfolio_engine.Portfolio.Start.{
  Boot, Sleeps, Process, ended, waiting, serving, waits, first_service, wait_and_serve, main,
}

-- The `do` of the waits.
abbrev sleeps_of : Option ℕ → Option ℕ → Option ℕ → Option Sleeps
sleeps_of u v w = do
  x ← u
  y ← v
  z ← w
  some record { for_backfill = x; for_prices = y; for_forecasts = z }

sleeps_of_iff :
    (u v w : Option ℕ) (x : Sleeps)
    → (sleeps_of u v w ≡ some x)
      ↔ ((u ≡ some x.for_backfill) × (v ≡ some x.for_prices) × (w ≡ some x.for_forecasts))
sleeps_of_iff none v w x = (λ e. absurd (ground arith), λ e. absurd (ground arith))
sleeps_of_iff (some i) none w x = (λ e. absurd (ground arith), λ e. absurd (ground arith))
sleeps_of_iff (some i) (some j) none x = (λ e. absurd (ground arith), λ e. absurd (ground arith))
sleeps_of_iff (some i) (some j) (some k) x = (
  λ e.
      let same = some-injective _ _ e in
      (
        ap (λ (y : Sleeps). some y.for_backfill) same,
        ap (λ (y : Sleeps). some y.for_prices) same,
        ap (λ (y : Sleeps). some y.for_forecasts) same,
      ),
  λ (a, b, d). ground arith,
)

module _ {F : Type 0} where
  abbrev process_of : Option Sleeps → Service F → Process F
  process_of o g = elim o [ none ↦ waiting | some y ↦ serving y g ]

  abbrev sleeps_in : Sleeps → Process F → Sleeps
  sleeps_in x ended = x
  sleeps_in x waiting = x
  sleeps_in x (serving y _) = y

  abbrev service_in : Service F → Process F → Service F
  service_in s ended = s
  service_in s waiting = s
  service_in s (serving _ t) = t

  process_of_iff :
      (o : Option Sleeps) (g : Service F) (x : Sleeps) (s : Service F)
      → (process_of o g ≡ serving x s) ↔ ((o ≡ some x) × (g ≡ s))
  process_of_iff none g x s = (λ e. absurd (cc e), λ e. absurd (ground arith))
  process_of_iff (some y) g x s = (
    λ e. (ap (λ p. some (sleeps_in y p)) e, ap (service_in g) e),
    λ (u, v). ap (λ z. serving z g) (some-injective _ _ u) ∙ ap (serving x) v,
  )

  starts_iff :
      (a b : Bool) (p : Process F) (x : Sleeps) (s : Service F)
      → ((if a && b then p else ended) ≡ serving x s)
        ↔ ((a ≡ true) × (b ≡ true) × (p ≡ serving x s))
  starts_iff true true p x s = (λ e. (refl, refl, e), λ (_, _, e). e)
  starts_iff true false p x s = (λ e. absurd (cc e), λ e. absurd (ground arith))
  starts_iff false b p x s = (λ e. absurd (cc e), λ e. absurd (ground arith))

-- A connection and the tables are there, and REDIS_ADDR is a host and a port.
abbrev pub IsUp : {F C : Type 0} → Boot F C → Type 0
IsUp b =
    CanBegin b.attempt portfolio_engine_program b.catalog
    × ((a : Text × Text) × IsAddress b.is_int b.redis_addr a)

-- Each wait has slept until the first poll that has what it waits for.
abbrev pub IsWaited : {F C : Type 0} → Config F → (min_price_rows : ℕ) → Boot F C → Sleeps → Type 0
IsWaited c min_price_rows b x =
    IsFirst (λ rows. All (IsMarked rows) c.symbols) x.for_backfill b.backfills
    × IsFirst (HasEnough (λ r. r.symbol) (λ r. true) min_price_rows c.symbols) x.for_prices b.prices
    × IsFirst (HasEnough (λ r. r.symbol) has_vol 1 c.symbols) x.for_forecasts b.forecasts

waits_iff :
    {F C : Type 0} (c : Config F) (min_price_rows : ℕ) (b : Boot F C) (x : Sleeps)
    → 1 ≤ min_price_rows
    → (waits c min_price_rows b ≡ some x) ↔ IsWaited c min_price_rows b x
unfolding waits
waits_iff c min_price_rows b x pos =
    let (to, back) =
      sleeps_of_iff (wait_for_backfill c.symbols b.backfills)
        (wait_for_prices c.symbols min_price_rows b.prices)
        (wait_for_forecasts c.symbols b.forecasts) x in
    let backfill = wait_for_backfill-IsFirst c.symbols b.backfills x.for_backfill in
    let prices = wait_for_prices-IsFirst c.symbols min_price_rows b.prices x.for_prices pos in
    let forecasts = wait_for_forecasts-IsFirst c.symbols b.forecasts x.for_forecasts in
    (
      λ e. let (u, v, w) = to e in (backfill.0 u, prices.0 v, forecasts.0 w),
      λ (u, v, w). back (backfill.1 u, prices.1 v, forecasts.1 w),
    )

module _ {F C : Type 0} ⦃f : Float F⦄ (np : Numpy F) (pd : Pandas F) (c : Config F)
    (h m min_price_rows : ℕ) where
  -- For a minimum of at least one price: the process is in its loop, after the sleeps `x` and with
  -- the service `s`, exactly when one of the ten attempts to connect works, `ensure_tables`
  -- succeeds, REDIS_ADDR is a host and a port with one colon between them, each of the three waits has slept until the first poll that has what it
  -- waits for (the marks, the prices, a forecast of every symbol), and `s` is what the rounds make of
  -- the tables as they were then.
  pub main_serves_iff :
      (b : Boot F C) (rounds : List (Round F)) (x : Sleeps) (s : Service F)
      → 1 ≤ min_price_rows
      → (main np pd c h m min_price_rows b rounds ≡ serving x s) ↔ (
          IsUp b
          × IsWaited c min_price_rows b x
          × (serve np pd c h m rounds (first_service h m b) ≡ s))
  unfolding main wait_and_serve
  main_serves_iff b rounds x s pos =
      let first = serve np pd c h m rounds (first_service h m b) in
      let (to, back) = process_of_iff (waits c min_price_rows b) first x s in
      let (to_waits, back_waits) = waits_iff c min_price_rows b x pos in
      let (to_begin, back_begin) = begins_iff b.attempt portfolio_engine_program b.catalog in
      let (to_address, back_address) = is_read_iff b.is_int b.redis_addr in
      let (begun, begin) =
        starts_iff (begins b.attempt portfolio_engine_program b.catalog)
          (is_read (parse_address b.is_int b.redis_addr))
          (process_of (waits c min_price_rows b) first) x s in
      (
        λ q.
            let (tables, address, p) = begun q in
            let (w, same) = to p in ((to_begin tables, to_address address), to_waits w, same),
        λ ((tables, address), w, same).
            begin (back_begin tables, back_address address, back (back_waits w, same)),
      )
