-- ===== src/Notifications.antt =====
-- src/modules/notifications: who is told of what happens to a request, and what users do with it.
mod Repo
mod Service
mod Recipients
mod Listener
mod Gateway
pub mod Audience
pub mod Delivery
pub mod Handover
pub mod Cursor
pub mod Paging
pub mod Limits
pub mod Inbox
pub mod Connections
pub mod Admittance
pub mod Leak
unfoldable pub use Repo.*
unfoldable pub use Service.*
unfoldable pub use Recipients.*
unfoldable pub use Listener.*
unfoldable pub use Gateway.*
