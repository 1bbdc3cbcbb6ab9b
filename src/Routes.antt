-- ===== src/Routes.antt =====
-- The controllers of src/modules: the guards and decorators in front of the services.
mod Pipeline
mod Buildings
mod Accounts
mod Organisation
mod Portfolio
pub mod Admission
pub mod Queries
pub mod Permissions
pub mod Signed
pub mod Platform
pub mod Sessions
pub mod Assigned
pub mod Refusal
unfoldable pub use Pipeline.*
unfoldable pub use Buildings.*
unfoldable pub use Accounts.*
unfoldable pub use Organisation.*
unfoldable pub use Portfolio.*
