-- ===== src/Scoping.antt =====
-- apps/common/tl_scoping.py: what a team lead may see.
mod Grants
mod Resolve
mod Tests
pub mod Rows
pub mod DidIds
pub mod Callers
pub mod Visible
pub mod Divisions
pub mod Leak
unfoldable pub use Grants.*
unfoldable pub use Resolve.*
