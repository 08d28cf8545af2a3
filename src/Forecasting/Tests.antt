-- ===== src/Forecasting/Tests.antt =====
-- The theorems of the forecasting service at concrete inputs.
pub mod Models
pub mod Threads
pub mod Start
