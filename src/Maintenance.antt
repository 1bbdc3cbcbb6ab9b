-- ===== src/Maintenance.antt =====
-- src/modules/maintenance-requests: the requests of residents and their handling by the building.
mod Rules
mod Repo
mod Resident
mod Staff
mod Calls
pub mod Evolution
pub mod Lifecycle
pub mod Failure
pub mod Events
pub mod Visibility
pub mod Assignment
unfoldable pub use Rules.*
unfoldable pub use Repo.*
unfoldable pub use Resident.*
unfoldable pub use Staff.*
unfoldable pub use Calls.*
