-- ===== src/Portfolio/Schedule/Daily.antt =====
-- The next rebalance is the first instant after now at the configured time of day.
use portfolio_engine.Prelude.{ℕ, ◌+◌, ◌*◌, ◌%◌, ◌≤◌, ◌<◌, ◌≡◌, arith}
use portfolio_engine.Portfolio.Schedule.{
  second, minute, hour, day, next_rebalance_from, sleep_seconds,
}

-- For an hour below 24 and a minute below 60, the next rebalance is after now, at most a day later,
-- at that time of day, and no later than any other instant after now at that time of day.
pub next_rebalance_from-IsNext :
    (h m now : ℕ)
    → h < 24
    → m < 60
    → (now < next_rebalance_from h m now)
      × (next_rebalance_from h m now ≤ now + day)
      × (next_rebalance_from h m now % day ≡ h * hour + m * minute)
      × ((t : ℕ) → now < t → t % day ≡ h * hour + m * minute → next_rebalance_from h m now ≤ t)
unfolding next_rebalance_from
next_rebalance_from-IsNext h m now hh hm = ground arith

-- For a check interval of at least one second, a sleep is at least one second and at most the
-- interval, and it does not go past the next rebalance when that is a second or more away.
sleep_seconds_bounds :
    (check next now : ℕ)
    → 1 ≤ check
    → (1 ≤ sleep_seconds check next now)
      × (sleep_seconds check next now ≤ check)
      × (now + second ≤ next → now + sleep_seconds check next now * second ≤ next)
unfolding sleep_seconds
sleep_seconds_bounds check next now h = ground arith
