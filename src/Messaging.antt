-- ===== src/Messaging.antt =====
-- apps/messaging: conversations, messages and their delivery states.
mod Defs
mod Resolve
mod Media
mod Broadcast
mod Rows
mod Send
mod Reads
pub mod Sets
pub mod Same
pub mod Created
pub mod Again
pub mod Unread
pub mod Sound
pub mod Kept
pub mod Unique
pub mod Later
pub mod Answered
pub mod Announced
pub mod Filing
pub mod Saved
pub mod Sent
mod Tests
unfoldable pub use Defs.*
unfoldable pub use Resolve.*
unfoldable pub use Media.*
unfoldable pub use Broadcast.*
unfoldable pub use Rows.*
unfoldable pub use Send.*
unfoldable pub use Reads.*
