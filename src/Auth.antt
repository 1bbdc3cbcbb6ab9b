-- ===== src/Auth.antt =====
-- src/modules/auth, and the guard of the platform's routes.
mod Service
mod Validation
mod Strategy
pub mod Sessions
pub mod Passwords
pub mod Identity
unfoldable pub use Service.*
unfoldable pub use Validation.*
unfoldable pub use Strategy.*
