-- ===== src/Estate.antt =====
-- The units of buildings, and what they refer to: amenities, unit types and owners.
mod Records
mod Units
mod Catalogue
mod Buildings
mod Checks
pub mod Amenities
pub mod Vacancies
pub mod Links
pub mod Changes
unfoldable pub use Records.*
unfoldable pub use Units.*
unfoldable pub use Catalogue.*
unfoldable pub use Buildings.*
