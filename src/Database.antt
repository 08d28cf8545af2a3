-- ===== src/Database.antt =====
-- The tables that the services share, and the queries that they are made of. A table is its rows
-- in insertion order; a time is a count of microseconds.
mod Rows
mod Newest
mod Keys
mod Order
pub mod Connect
pub mod Schema
unfoldable pub use Rows.*
unfoldable pub use Newest.*
unfoldable pub use Keys.*
unfoldable pub use Order.*
