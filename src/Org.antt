-- ===== src/Org.antt =====
-- src/modules/occupancies, residents, building-assignments and the provisioning of users/: who
-- lives in and works for the buildings of an organisation.
mod Directory
mod Occupancies
mod Residents
mod Residency
mod Assignments
mod Provision
pub mod Vacancy
pub mod Privilege
pub mod Tenancy
unfoldable pub use Directory.*
unfoldable pub use Occupancies.*
unfoldable pub use Residents.*
unfoldable pub use Residency.*
unfoldable pub use Assignments.*
unfoldable pub use Provision.*
