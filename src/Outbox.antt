-- ===== src/Outbox.antt =====
-- apps/outbox: events are stored with the change that causes them, and a worker publishes them.
mod Defs
pub mod Run
pub mod Once
pub mod Drain
mod Tests
unfoldable pub use Defs.*
