-- ===== src/Portfolio/Schedule.antt =====
-- The schedule of portfolio_engine/main.py: `_next_rebalance_from` and the sleeps of `main`.
-- A `datetime` in UTC is the count of microseconds since the start of a day.
pub mod Daily
use portfolio_engine.Prelude.{ℕ, ◌+◌, ◌-◌, ◌*◌, ◌/◌, ◌%◌, Bool, leb, ltb, if◌then◌else◌}

abbrev pub second : ℕ
second = 1_000_000

abbrev pub minute : ℕ
minute = 60 * second

abbrev pub hour : ℕ
hour = 60 * minute

abbrev pub day : ℕ
day = 24 * hour

-- `now.replace(hour=h, minute=m, second=0, microsecond=0)`
abbrev pub replace_time : ℕ → ℕ → ℕ → ℕ
replace_time h m now = now / day * day + h * hour + m * minute

unfoldable pub next_rebalance_from : (rebalance_hour rebalance_minute now : ℕ) → ℕ
next_rebalance_from rebalance_hour rebalance_minute now =
    let target = replace_time rebalance_hour rebalance_minute now in
    if leb target now then target + day else target

-- `max(1, min(REBALANCE_CHECK_SECONDS, int((next - now).total_seconds())))`. `int` cuts towards
-- zero, so a `next` before `now` gives 0 or less, and the sleep is 1 as it is with `-` at 0.
unfoldable pub sleep_seconds : (check_seconds next now : ℕ) → ℕ
sleep_seconds check_seconds next now =
    let left = (next - now) / second in
    let shorter = if ltb left check_seconds then left else check_seconds in
    if ltb 1 shorter then shorter else 1
