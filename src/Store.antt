-- ===== src/Store.antt =====
-- The database as the services see it, and the monad of their methods.
mod Rows
pub mod Notices
pub mod Estate
mod Schema
mod Monad
unfoldable pub use Rows.*
unfoldable pub use Schema.*
unfoldable pub use Monad.*
