-- ===== src/Webhooks/Telnyx.antt =====
-- apps/webhooks/views.py, `TelnyxWebhookView`: the messaging provider's events.
mod Payload
mod Status
mod Inbound
mod Post
pub mod Updated
pub mod Received
pub mod Filed
pub mod Stored
pub mod Handled
pub mod Signed
pub mod Placed
pub mod Reached
mod Tests
unfoldable pub use Payload.*
unfoldable pub use Status.*
unfoldable pub use Inbound.*
unfoldable pub use Post.*
