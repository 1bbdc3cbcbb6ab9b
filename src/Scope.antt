-- ===== src/Scope.antt =====
-- src/common: the organisation scope, the access to a building, and the guards of the routes.
mod User
mod Buildings
mod Guards
pub mod Levels
pub mod Checks
unfoldable pub use User.*
unfoldable pub use Buildings.*
unfoldable pub use Guards.*
