-- ===== src/Webhooks/FreeSwitch.antt =====
-- apps/webhooks/views.py, `FreeSwitchWebhookView`: the telephony server's events.
mod State
mod Payload
mod Tenants
mod Extensions
mod Dids
mod Post
pub mod Tables
pub mod Logged
pub mod Rows
pub mod ExtensionRows
pub mod EventRows
pub mod Isolated
pub mod Deleted
pub mod Notified
mod Tests
unfoldable pub use State.*
unfoldable pub use Payload.*
unfoldable pub use Tenants.*
unfoldable pub use Extensions.*
unfoldable pub use Dids.*
unfoldable pub use Post.*
