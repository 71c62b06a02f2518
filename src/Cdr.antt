-- ===== src/Cdr.antt =====
-- apps/common/cdr_views.py: whose call records a request may read, and how those of several extensions
-- are put together.
mod Params
mod Scope
pub mod Joined
pub mod Requested
pub mod Allowed
mod Tests
unfoldable pub use Params.*
unfoldable pub use Scope.*
