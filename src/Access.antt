-- ===== src/Access.antt =====
-- src/modules/access-control: roles, permissions and the permissions in effect for a user.
mod Repo
mod Service
pub mod Effective
pub mod Updates
unfoldable pub use Repo.*
unfoldable pub use Service.*
