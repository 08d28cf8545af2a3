-- ===== src/Portfolio.antt =====
-- The service of portfolio_engine/.
pub mod Pnl
pub mod Prices
pub mod States
pub mod Numpy
pub mod Allocator
pub mod Schedule
pub mod Estimates
pub mod Forecasts
pub mod Rebalance
pub mod Ready
pub mod Loop
pub mod Start
pub mod Tests
