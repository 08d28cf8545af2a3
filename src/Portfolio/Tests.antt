-- ===== src/Portfolio/Tests.antt =====
-- The theorems of the service at concrete inputs.
pub mod Arrays
pub mod Data
mod Cases
mod Parts
pub mod Start
mod Inference
