-- ===== src/Dict.antt =====
-- Python's `dict` with text keys, in insertion order: its operations, and their laws.
mod Defs
mod Laws
mod Distinct
unfoldable pub use Defs.*
pub use Laws.*
pub use Distinct.*
