-- ===== src/System.antt =====
-- The services together: what one writes and another waits for.
pub mod Services
pub mod Sound
pub mod Unlisted
pub mod Pipeline
pub mod Starts
mod Tests
