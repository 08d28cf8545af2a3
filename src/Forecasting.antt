-- ===== src/Forecasting.antt =====
-- The service under forecasting/: labels, training, inference and its threads.
pub mod Labels
pub mod Store
pub mod Losses
pub mod Inference
pub mod Garch
pub mod Train
pub mod Training
pub mod Service
pub mod Ready
pub mod Start
pub mod Tests
