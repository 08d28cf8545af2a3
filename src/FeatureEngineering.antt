-- ===== src/FeatureEngineering.antt =====
-- The service under feature_engineering/.
pub mod Indicators
pub mod Stream
pub mod Reads
pub mod Start
pub mod Tests
