-- ===== src/Accounts.antt =====
-- The accounts that are made for others: users.service.ts, and the organisations of the platform.
mod Members
mod Platform
mod Profile
pub mod Admission
unfoldable pub use Members.*
unfoldable pub use Platform.*
unfoldable pub use Profile.*
